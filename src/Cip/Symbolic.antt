-- ===== src/Cip/Symbolic.antt =====
-- The symbolic segment: what `appendSymbolic` writes, its size, and that a target can read it.
use esp32_control_logix.Base.{
  ℕ, ◌+◌, ◌%◌, ◌≤◌, ◌≡◌, refl, sym, ap, ◌∙◌, Option, none, some, List, [], ◌∷◌, ◌++◌, append-nil,
  append_assoc, length, take, drop, length-append, length-take, take_all, take-append, drop-append,
  store, store-append, drop-store_at, leb, ◌&&◌, ◌==◌, if◌then◌else◌, arith,
}
use esp32_control_logix.Cip.{segment_symbolic, max_symbolic_name, symbolic_length, append_symbolic}

-- A zero byte where the name has an odd length.
abbrev pub pad : ℕ → List ℕ
pad len = if len % 2 == 1 then 0 ∷ [] else []

-- The segment: type, length, name, padding.
abbrev pub symbolic_bytes : List ℕ → List ℕ
symbolic_bytes name =
    segment_symbolic ∷ symbolic_length name ∷ take (symbolic_length name) name
    ++ pad (symbolic_length name)

length-name : (name : List ℕ) → length (take (symbolic_length name) name) ≡ symbolic_length name
length-name name = ground (arith, length-take (symbolic_length name) name)

symbolic_length-le : (name : List ℕ) → symbolic_length name ≤ max_symbolic_name
symbolic_length-le name = ground arith

pub length-symbolic_bytes :
    (name : List ℕ)
    → length (symbolic_bytes name) ≡ 2 + symbolic_length name + symbolic_length name % 2
length-symbolic_bytes name =
    let n = symbolic_length name in
    ground (arith, length-append (take n name) (pad n), length-name name)

-- `appendSymbolic` writes the segment at the offset and returns its length.
pub append_symbolic-eq :
    (buf : List ℕ) (out : ℕ) (name : List ℕ)
    → append_symbolic buf out name
      ≡ (store buf out (symbolic_bytes name), length (symbolic_bytes name))
unfolding append_symbolic
append_symbolic-eq buf out name =
    let n = symbolic_length name in
    let chars = take n name in
    let size = length-name name in
    let head : List ℕ = segment_symbolic ∷ n ∷ [] in
    let small : n % 256 ≡ n = ground arith in
    let named : store (store (store buf out (segment_symbolic ∷ [])) (out + 1) ((n % 256) ∷ []))
          (out + 2) chars
        ≡ store buf out (head ++ chars) =
      ap
        (λ k.
          store (store (store buf out (segment_symbolic ∷ [])) (out + 1) (k ∷ [])) (out + 2) chars)
        small
      ∙ ap (λ b. store b (out + 2) chars)
          (store-append buf out (out + 1) (segment_symbolic ∷ []) (n ∷ []) refl)
      ∙ store-append buf out (out + 2) head chars refl in
    let end : out + (2 + n) ≡ out + length (head ++ chars) =
      omega (arith, length-append head chars, size) in
    ground (
      arith,
      named,
      store-append buf out (out + (2 + n)) (head ++ chars) (0 ∷ []) end,
      append-nil chars,
      length-symbolic_bytes name,
    )

-- How a target reads a symbolic segment: the name, and what follows the padding.
abbrev pub read_symbolic : List ℕ → Option (List ℕ × List ℕ)
read_symbolic [] = none
read_symbolic (kind ∷ []) = none
read_symbolic (kind ∷ len ∷ rest) =
    if kind == 0xa0 && leb (len + len % 2) (length rest)
    then some (take len rest, drop (len + len % 2) rest)
    else none

read_padded :
    (name rest : List ℕ)
    → read_symbolic (segment_symbolic ∷ length name ∷ (name ++ pad (length name)) ++ rest)
      ≡ some (name, rest)
read_padded name rest =
    let n = length name in
    let gap : length (pad n) ≡ n % 2 = ground arith in
    let all : length (name ++ pad n) ≡ n + n % 2 = omega (arith, length-append name (pad n), gap) in
    ground (
      arith,
      length-append (name ++ pad n) rest,
      all,
      ap (take n) (append_assoc name (pad n) rest) ∙ take-append name (pad n ++ rest),
      ap (λ (k : ℕ). drop k ((name ++ pad n) ++ rest)) (sym all) ∙ drop-append (name ++ pad n) rest,
    )

read_symbolic-bytes :
    (name rest : List ℕ)
    → length name ≤ max_symbolic_name
    → read_symbolic (symbolic_bytes name ++ rest) ≡ some (name, rest)
read_symbolic-bytes name rest h =
    ap (λ bs. read_symbolic (bs ++ rest)) whole ∙ read_padded name rest
  where
    uncut : symbolic_length name ≡ length name
    uncut = ground arith

    whole : symbolic_bytes name ≡ segment_symbolic ∷ length name ∷ name ++ pad (length name)
    whole =
        ap (λ (k : ℕ). segment_symbolic ∷ k ∷ take k name ++ pad k) uncut
        ∙ ap (λ (cs : List ℕ). segment_symbolic ∷ length name ∷ cs ++ pad (length name))
            (take_all (length name) name (omega arith))

-- For a name of at most 120 characters and a buffer with room, the segment that `appendSymbolic`
-- writes is read back as the name; it returns the number of bytes it wrote, which is even and at
-- most 122.
pub append_symbolic-read :
    (buf : List ℕ) (out : ℕ) (name : List ℕ)
    → length name ≤ max_symbolic_name
    → out + 122 ≤ length buf
    → let (buf', total) = append_symbolic buf out name in
      (read_symbolic (drop out buf') ≡ some (name, drop (out + total) buf))
      × (total % 2 ≡ 0)
      × (total ≤ 122)
append_symbolic-read buf out name h room = rw (append_symbolic-eq buf out name) (
  ap read_symbolic (drop-store_at buf out (symbolic_bytes name) (omega (arith, size, short)))
      ∙ read_symbolic-bytes name (drop (out + length (symbolic_bytes name)) buf) h,
  omega (arith, size),
  omega (arith, size, short),
)
  where
    size : length (symbolic_bytes name) ≡ 2 + symbolic_length name + symbolic_length name % 2
    size = length-symbolic_bytes name

    short : symbolic_length name ≤ max_symbolic_name
    short = symbolic_length-le name
