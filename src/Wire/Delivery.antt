-- ===== src/Wire/Delivery.antt =====
-- `readResponse` of a frame that is there to be read whole.
use esp32_control_logix.Base.{
  ℕ, zero, suc, ◌+◌, ◌-◌, ◌≤◌, ◌<◌, ◌≡◌, ◌≢◌, refl, sym, ap, ◌∙◌, inl, inr, List, [], ◌++◌, length,
  length-append, length-take, take, drop, take-append, drop-append, length-store,
  get_or-append_left, ltb, ◌==◌, Bool-cases, arith,
}
use esp32_control_logix.Base.Int.{sign, nothing, count, code}
use esp32_control_logix.Status.{ok}
use esp32_control_logix.Encapsulation.{
  header_size, byte_at, get_u16, get_u32, get_u64, get_u64_loop, decode_header,
}
use esp32_control_logix.Encapsulation.Windows.{get_or-take}
use esp32_control_logix.Transport.{Transport, IsTransport, Streams}
use esp32_control_logix.Wire.{
  Wire, Outcome, received, body_length, read_on, rounds_left, read_loop, read_response,
}
use esp32_control_logix.Wire.Framing.{
  IsReceiving, received-IsReceiving, headed-IsReceiving, whole_frame, read_response-Read,
}
use esp32_control_logix.Wire.Conservation.{incoming, received-incoming, read_response-incoming}
use esp32_control_logix.Wire.Ready.{IsReadable, IsReady}

-- The bytes of a frame, complete with its header.
pub record IsFrame (max_body : ℕ) (frame : List ℕ) : Type 0 where
  pub size : length frame ≡ header_size + (decode_header frame 0).length
  pub small : length frame ≤ header_size + max_body

module _ (rx rest frame more : List ℕ) (n : ℕ) where
  same_byte :
      n ≤ length rx
      → header_size ≤ n
      → header_size ≤ length frame
      → take n rx ++ rest ≡ frame ++ more
      → (j : ℕ) → j < header_size
      → byte_at rx j ≡ byte_at frame j
  same_byte room h k e j at =
      let size : length (take n rx) ≡ n = omega (arith, length-take n rx) in
      sym (get_or-take n rx j 0 (omega arith))
      ∙ sym (get_or-append_left (take n rx) rest j 0 (omega (arith, size)))
      ∙ ap (λ xs. byte_at xs j) e
      ∙ get_or-append_left frame more j 0 (omega arith)

  -- Once the header is there, it is the header of the frame.
  same_length :
      n ≤ length rx
      → header_size ≤ n
      → header_size ≤ length frame
      → take n rx ++ rest ≡ frame ++ more
      → (decode_header rx 0).length ≡ (decode_header frame 0).length
  unfolding decode_header get_u16
  same_length room h k e =
      rw (same_byte room h k e 2 (omega arith), same_byte room h k e 3 (omega arith)) refl

-- Two buffers with the same first 24 bytes have the same header.
pub same_header :
    (xs ys : List ℕ)
    → ((j : ℕ) → j < header_size → byte_at xs j ≡ byte_at ys j)
    → decode_header xs 0 ≡ decode_header ys 0
unfolding decode_header get_u16 get_u32 get_u64 get_u64_loop
same_header xs ys e =
    let b = λ (j : ℕ) (h : j < header_size). e j h in
    rw
      (
        b 0 (omega arith),
        b 1 (omega arith),
        b 2 (omega arith),
        b 3 (omega arith),
        b 4 (omega arith),
        b 5 (omega arith),
        b 6 (omega arith),
        b 7 (omega arith),
        b 8 (omega arith),
        b 9 (omega arith),
        b 10 (omega arith),
        b 11 (omega arith),
        b 12 (omega arith),
        b 13 (omega arith),
        b 14 (omega arith),
        b 15 (omega arith),
        b 16 (omega arith),
        b 17 (omega arith),
        b 18 (omega arith),
        b 19 (omega arith),
        b 20 (omega arith),
        b 21 (omega arith),
        b 22 (omega arith),
        b 23 (omega arith),
      )
      refl

append-cancel :
    (xs ys zs us : List ℕ) → length xs ≡ length zs → xs ++ ys ≡ zs ++ us → (xs ≡ zs) × (ys ≡ us)
append-cancel xs ys zs us size e = (
  sym (take-append xs ys)
      ∙ ap (λ (k : ℕ). take k (xs ++ ys)) size
      ∙ ap (take (length zs)) e
      ∙ take-append zs us,
  sym (drop-append xs ys)
      ∙ ap (λ (k : ℕ). drop k (xs ++ ys)) size
      ∙ ap (drop (length zs)) e
      ∙ drop-append zs us,
)

-- A frame that has come in whole, and what the stream has behind it.
pub record Delivered {W : Type 0} {t : Transport W} (s : Streams t) (frame more : List ℕ)
    (out : Outcome W) : Type 0 where
  pub all_in : out.0 ≡ ok
  pub size : out.1.rx_len ≡ length frame
  pub holds : take out.1.rx_len out.1.rx ≡ frame
  pub behind : s.unread out.2 ≡ more

module _ {W : Type 0} (t : Transport W) (s : Streams t) {on : W → Type 0} (r : IsReady s on) where
  read_loop-sent :
      (max_body rounds : ℕ) (b : Wire) (w : W)
      → s.sent (read_loop t max_body rounds b w).2 ≡ s.sent w
  unfolding read_loop
  read_loop-sent max_body zero b w = refl
  read_loop-sent max_body (suc rounds) b w =
      let len = b.rx_expected - b.rx_len in
      let keeps = r.read_keeps w len in
      elim (sign (t.read w len).0) [
        | nothing e ↦ ground (arith, keeps)
        | count i e ↦
            let c : Wire = received b (t.read w len).1 (suc i) in
            ground (
              arith,
              keeps,
              read_loop-sent max_body rounds c (t.read w len).2,
              read_loop-sent max_body rounds
                  (record c { rx_expected = header_size + body_length c }) (t.read w len).2,
            )
        | code i e ↦ ground (arith, keeps)
      ]

  pub read_response-sent :
      (max_body : ℕ) (b : Wire) (w : W) → s.sent (read_response t max_body b w).2 ≡ s.sent w
  unfolding read_response
  read_response-sent max_body b w = read_loop-sent max_body (rounds_left max_body b) b w

module _ {W : Type 0} (t : Transport W) (v : IsTransport t) (s : Streams t) {on : W → Type 0}
    (r : IsReadable s on) where
  module _ (max_body : ℕ) (frame more : List ℕ) (f : IsFrame max_body frame) where
    -- Between two rounds the loop does not wait for more than the frame.
    expected-in_frame :
        (b : Wire) (w : W)
        → IsReceiving max_body b
        → incoming s b w ≡ frame ++ more
        → (b.rx_expected ≤ length frame) × (header_size ≤ b.rx_len → b.rx_expected ≡ length frame)
    expected-in_frame b w h e = elim (Bool-cases (ltb b.rx_len header_size)) [
      | inl early ↦ ground (arith, h.header_first, f.size)
      | inr late ↦
          let there : header_size ≤ b.rx_len = ground arith in
          let whole : header_size ≤ length frame = omega (arith, f.size) in
          let len =
            same_length b.rx (s.unread w) frame more b.rx_len
              (omega (arith, h.rx_room, h.rx_fits, h.expected_fits)) there whole e in
          ground (arith, h.body_next there, len, f.size)
    ]

    read_loop-ok :
        (rounds : ℕ) (b : Wire) (w : W)
        → IsReceiving max_body b
        → rounds_left max_body b ≤ rounds
        → incoming s b w ≡ frame ++ more
        → on w
        → (read_loop t max_body rounds b w).0 ≡ ok
    unfolding read_loop
    read_loop-ok zero b w h k e o = refl
    read_loop-ok (suc rounds) b w h k e o = elim (Bool-cases (ltb b.rx_len b.rx_expected)) [
      | inr all ↦ ground arith
      | inl part ↦
          let len = b.rx_expected - b.rx_len in
          let known = expected-in_frame b w h e in
          let got : length (take b.rx_len b.rx) ≡ b.rx_len =
            omega (arith, length-take b.rx_len b.rx, h.rx_room, h.rx_fits, h.expected_fits) in
          let total : b.rx_len + length (s.unread w) ≡ length frame + length more = omega (
            arith,
            got,
            length-append (take b.rx_len b.rx) (s.unread w),
            ap length e,
            length-append frame more,
          ) in
          let asks : 0 < len = ground arith in
          let waiting : 0 < length (s.unread w) = ground (arith, known.0, total) in
          let (i, one) = r.read_moves w len o asks waiting in
          let o' = r.read_on w len o asks waiting in
          let rd = t.read w len in
          let fits : b.rx_len + suc i ≤ b.rx_expected =
            omega (arith, h.rx_fits, v.read_fits w len (suc i) one) in
          let bytes = v.read_bytes w len in
          let c : Wire = received b rd.1 (suc i) in
          let d : Wire = record c { rx_expected = header_size + body_length c } in
          let moved : incoming s c rd.2 ≡ frame ++ more =
            received-incoming t v s max_body b w (suc i) h one ∙ e in
          let room : length c.rx ≡ header_size + max_body =
            length-store b.rx b.rx_len rd.1 ∙ h.rx_room in
          let whole : header_size ≤ length frame = omega (arith, f.size) in
          let at_header : b.rx_len + suc i ≡ header_size
              → header_size + body_length c ≡ length frame =
            λ q. omega (
              arith,
              f.size,
              same_length c.rx (s.unread rd.2) frame more c.rx_len (omega (arith, room, q))
                  (omega (arith, q)) whole moved,
            ) in
          let on : (read_on max_body (read_loop t max_body rounds) c rd.2).0 ≡ ok =
            elim (Bool-cases (c.rx_len == header_size)) [
              | inl full ↦
                  let q : b.rx_len + suc i ≡ header_size = ground arith in
                  let small : body_length c ≤ max_body = omega (arith, f.small, at_header q) in
                  let ready = headed-IsReceiving max_body b rd.1 i h bytes q small in
                  let less : rounds_left max_body d ≤ rounds = ground (arith, k, part) in
                  ground (arith, small, read_loop-ok rounds d rd.2 ready less moved o')
              | inr other ↦
                  let q : b.rx_len + suc i ≢ header_size = ground arith in
                  let ready = received-IsReceiving max_body b rd.1 i h bytes fits q in
                  let less : rounds_left max_body c ≤ rounds = ground (arith, k, part) in
                  ground (arith, read_loop-ok rounds c rd.2 ready less moved o')
            ] in
          ground (arith, one, on)
    ]

    -- In a state in which a read moves a byte at least where one is there to read, and keeps to such
    -- states: when the rest of a frame is there to be read, it comes in whole in one call, in
    -- however many pieces, and not a byte of what follows it.
    pub read_response-Delivered :
        (b : Wire) (w : W)
        → IsReceiving max_body b
        → incoming s b w ≡ frame ++ more
        → on w
        → Delivered s frame more (read_response t max_body b w)
    unfolding read_response
    read_response-Delivered b w h e o =
        let out = read_response t max_body b w in
        let done : out.0 ≡ ok = read_loop-ok (rounds_left max_body b) b w h (omega arith) e o in
        let kept = read_response-incoming t v s max_body b w h ∙ e in
        let read = read_response-Read t v max_body b w h in
        let there : IsReceiving max_body out.1 = read.ok_receiving done in
        let end = read.ok_frame done in
        let known = expected-in_frame out.1 out.2 there kept in
        let whole = whole_frame out.1 there end in
        let size : out.1.rx_len ≡ length frame = end ∙ known.1 whole.0 in
        let got : length (take out.1.rx_len out.1.rx) ≡ length frame =
          omega (arith, length-take out.1.rx_len out.1.rx, read.rx_room, read.rx_fits, size) in
        let parts = append-cancel _ _ frame more got kept in
        record { all_in = done; size = size; holds = parts.0; behind = parts.1 }

-- A frame that has come in is read with its own header.
pub header-Delivered :
    {W : Type 0} {t : Transport W} (s : Streams t) (max_body : ℕ) (frame more : List ℕ)
    (out : Outcome W)
    → IsFrame max_body frame
    → length out.1.rx ≡ header_size + max_body
    → Delivered s frame more out
    → decode_header out.1.rx 0 ≡ decode_header frame 0
header-Delivered s max_body frame more out f room d =
    let whole : header_size ≤ length frame = omega (arith, f.size) in
    let same : take out.1.rx_len out.1.rx ++ [] ≡ frame ++ [] = ap (λ xs. xs ++ []) d.holds in
    same_header out.1.rx frame (
      same_byte out.1.rx [] frame [] out.1.rx_len (omega (arith, room, d.size, f.small))
        (omega (arith, d.size)) whole same)
