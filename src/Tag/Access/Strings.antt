-- ===== src/Tag/Access/Strings.antt =====
-- The string that is set is the string that is read, cut to the room of the tag and of the reader.
use esp32_control_logix.Base.{
  ℕ, zero, suc, ◌+◌, ◌-◌, ◌≤◌, ◌<◌, ◌≡◌, refl, ap, ◌∙◌, false, some, List, [], ◌∷◌, ◌++◌, length,
  length-take, take, drop, All, store, store-All, store-append, drop-store_at, ltb, min,
  if◌then◌else◌, ◌==◌, arith,
}
use esp32_control_logix.Encapsulation.{IsByte, u32_bytes, put_u32, get_u32}
use esp32_control_logix.Encapsulation.Words.{get_u32-value}
use esp32_control_logix.Packet.Frame.{All-append}
use esp32_control_logix.Tag.{Tag, max_data_size}
use esp32_control_logix.Tag.Access.{get_string, set_string}
use esp32_control_logix.Tag.Access.RoundTrip.{IsTag, value-store_at}

take-append_short : (n : ℕ) (xs ys : List ℕ) → n ≤ length xs → take n (xs ++ ys) ≡ take n xs
take-append_short zero xs ys h = refl
take-append_short (suc n) [] ys h = absurd (omega arith)
take-append_short (suc n) (x ∷ xs) ys h = ap (◌∷◌ x) (take-append_short n xs ys (omega arith))

take-take : (m n : ℕ) (xs : List ℕ) → m ≤ n → take m (take n xs) ≡ take m xs
take-take zero n xs h = refl
take-take (suc m) zero xs h = absurd (omega arith)
take-take (suc m) (suc n) [] h = refl
take-take (suc m) (suc n) (x ∷ xs) h = ap (◌∷◌ x) (take-take m n xs (omega arith))

take-All : (n : ℕ) (xs : List ℕ) → All IsByte xs → All IsByte (take n xs)
take-All zero xs h = tt
take-All (suc n) [] h = tt
take-All (suc n) (x ∷ xs) h = (h.0, take-All n xs h.1)

-- What fits in a tag: 252 characters behind the length.
abbrev pub string_room : ℕ → ℕ
string_room len = min len (max_data_size - 4)

module _ (tag : Tag) (s : List ℕ) (v : IsTag tag) (bytes : All IsByte s) where
  abbrev len : ℕ
  len = string_room (length s)

  abbrev written : List ℕ
  written = u32_bytes len ++ take len s

  length-written : length written ≡ 4 + len
  length-written = omega (arith, length-take len s)

  string_payload : (set_string tag (some s)).payload ≡ store tag.payload 0 written
  unfolding set_string put_u32
  string_payload =
      let same : (if ltb (max_data_size - 4) (length s) then max_data_size - 4 else length s)
          ≡ len =
        ground arith in
      rw same (store-append tag.payload 0 4 (u32_bytes len) (take len s) refl)

  string_payload_len : (set_string tag (some s)).payload_len ≡ 4 + len
  unfolding set_string
  string_payload_len = ground arith

  string_length : get_u32 (store tag.payload 0 written) 0 ≡ len
  string_length =
      let head : All IsByte (u32_bytes len) = omega arith in
      let all =
        store-All IsByte tag.payload 0 written v.payload_bytes
          (All-append IsByte (u32_bytes len) (take len s) head (take-All len s bytes)) in
      let room : 0 + length written ≤ length tag.payload =
        omega (arith, length-written, v.payload_length) in
      get_u32-value (store tag.payload 0 written) 0 all
      ∙ value-store_at tag.payload 0 4 written room (omega (arith, length-written))
      ∙ omega arith

  string_text : (n : ℕ) → n ≤ len → take n (drop 4 (store tag.payload 0 written)) ≡ take n s
  string_text n h =
      let room : 0 + length written ≤ length tag.payload =
        omega (arith, length-written, v.payload_length) in
      let there = drop-store_at tag.payload 0 written room in
      ap (λ xs. take n (drop 4 xs)) there
      ∙ take-append_short n (take len s) _ (omega (arith, h, length-take len s))
      ∙ take-take n len s h

  -- In a tag with a buffer of 256 bytes, `setString` of any string of bytes and then `getString`
  -- into a buffer of `buf_len` bytes, one at least, give the string back, cut to 252 characters and
  -- to `buf_len - 1`, with a NUL behind it and the rest of the reader's buffer as it was; the number
  -- returned is the number of characters.
  pub get_string-set_string :
      (buf : List ℕ) (buf_len : ℕ)
      → 0 < buf_len
      → buf_len ≤ length buf
      → let n = min (string_room (length s)) (buf_len - 1) in
        get_string (set_string tag (some s)) (some buf) buf_len
        ≡ (n, some (store buf 0 (take n s ++ (0 ∷ []))))
  unfolding get_string
  get_string-set_string buf buf_len h k =
      let n = min len (buf_len - 1) in
      let tag' = set_string tag (some s) in
      let size : get_u32 tag'.payload 0 ≡ len =
        ap (λ xs. get_u32 xs 0) string_payload ∙ string_length in
      let text : take n (drop 4 tag'.payload) ≡ take n s =
        ap (λ xs. take n (drop 4 xs)) string_payload ∙ string_text n (omega arith) in
      let end : n ≡ 0 + length (take n s) = omega (arith, length-take n s) in
      let stored = store-append buf 0 n (take n s) (0 ∷ []) end in
      let held : (if ltb len (4 + len - 4) then len else 4 + len - 4) ≡ len = ground arith in
      let cut : (if ltb (buf_len - 1) len then buf_len - 1 else len) ≡ n = ground arith in
      let long : ltb (4 + len) 4 ≡ false = ground arith in
      let some_room : (buf_len == 0) ≡ false = ground arith in
      rw (string_payload_len, size, held, cut, long, some_room, text, stored) refl
