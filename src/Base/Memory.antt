-- ===== src/Base/Memory.antt =====
-- Fixed buffers: `memcpy` into a buffer at an offset, and what it leaves behind.
use Prim.Native.Nat.{ℕ, zero, suc, ◌+◌, ◌≤◌, ◌<◌}
use mathlib.Core.Path.{◌≡◌, refl, sym, ap, ◌∙◌}
use mathlib.Core.List.{List, [], ◌∷◌, ◌++◌}
use native.Mathlib.Nat.{zero-add}
use native.Mathlib.Omega.{arith}
use esp32_control_logix.Base.Lists.{length, take, drop, get_or, All}

-- Writes the bytes `bs` from the offset on. A byte past the end of the buffer is dropped: that
-- none is, is what the bounds theorems state.
abbrev pub store : List ℕ → ℕ → List ℕ → List ℕ
store [] off bs = []
store (x ∷ xs) (suc off) bs = x ∷ store xs off bs
store (x ∷ xs) zero [] = x ∷ xs
store (x ∷ xs) zero (b ∷ bs) = b ∷ store xs zero bs

pub length-store : (buf : List ℕ) (off : ℕ) (bs : List ℕ) → length (store buf off bs) ≡ length buf
length-store [] off bs = refl
length-store (x ∷ xs) (suc off) bs = ap suc (length-store xs off bs)
length-store (x ∷ xs) zero [] = refl
length-store (x ∷ xs) zero (b ∷ bs) = ap suc (length-store xs zero bs)

-- A write at the start is read back from the start.
pub take-store_start :
    (buf bs : List ℕ) → length bs ≤ length buf → take (length bs) (store buf zero bs) ≡ bs
take-store_start [] [] h = refl
take-store_start [] (b ∷ bs) h = absurd (omega arith)
take-store_start (x ∷ xs) [] h = refl
take-store_start (x ∷ xs) (b ∷ bs) h = ap (◌∷◌ b) (take-store_start xs bs (omega arith))

-- A write that continues a written prefix extends it.
pub take-store :
    (buf : List ℕ) (off : ℕ) (bs : List ℕ)
    → off + length bs ≤ length buf
    → take (off + length bs) (store buf off bs) ≡ take off buf ++ bs
take-store buf zero bs h =
    ap (λ n. take n (store buf zero bs)) (omega arith) ∙ take-store_start buf bs (omega arith)
take-store [] (suc off) bs h = absurd (omega arith)
take-store (x ∷ xs) (suc off) bs h =
    ap (λ n. take n (x ∷ store xs off bs)) shift ∙ ap (◌∷◌ x) (take-store xs off bs (omega arith))
  where
    shift : suc off + length bs ≡ suc (off + length bs)
    shift = omega arith

pub store-nil : (buf : List ℕ) (off : ℕ) → store buf off [] ≡ buf
store-nil [] off = refl
store-nil (x ∷ xs) zero = refl
store-nil (x ∷ xs) (suc off) = ap (◌∷◌ x) (store-nil xs off)

-- A write that goes on where another ended is one write.
pub store-store :
    (buf : List ℕ) (off : ℕ) (xs ys : List ℕ)
    → store (store buf off xs) (off + length xs) ys ≡ store buf off (xs ++ ys)
store-store [] off xs ys = refl
store-store (b ∷ bs) zero [] ys = refl
store-store (b ∷ bs) zero (x ∷ xs) ys =
    ap (λ n. store (x ∷ store bs zero xs) n ys) (shift (length xs))
    ∙ ap (◌∷◌ x) (ap (λ n. store (store bs zero xs) n ys) (omega arith) ∙ store-store bs zero xs ys)
  where
    shift : (n : ℕ) → zero + suc n ≡ suc n
    shift n = omega arith
store-store (b ∷ bs) (suc off) xs ys =
    ap (λ n. store (b ∷ store bs off xs) n ys) (shift (length xs))
    ∙ ap (◌∷◌ b) (store-store bs off xs ys)
  where
    shift : (n : ℕ) → suc off + n ≡ suc (off + n)
    shift n = omega arith

-- The same, where the second offset is written in another way.
pub store-append :
    (buf : List ℕ) (off off' : ℕ) (xs ys : List ℕ)
    → off' ≡ off + length xs
    → store (store buf off xs) off' ys ≡ store buf off (xs ++ ys)
store-append buf off off' xs ys e =
    ap (λ k. store (store buf off xs) k ys) e ∙ store-store buf off xs ys

-- What was written is what is read back.
pub get_or-store :
    (buf : List ℕ) (off : ℕ) (bs : List ℕ) (j d : ℕ)
    → off + length bs ≤ length buf
    → j < length bs
    → get_or (store buf off bs) (off + j) d ≡ get_or bs j d
get_or-store [] off bs j d h k = absurd (omega arith)
get_or-store (x ∷ xs) zero [] j d h k = absurd (omega arith)
get_or-store (x ∷ xs) zero (b ∷ bs) zero d h k = refl
get_or-store (x ∷ xs) zero (b ∷ bs) (suc j) d h k =
    ap (λ n. get_or (b ∷ store xs zero bs) n d) shift
    ∙ get_or-store xs zero bs j d (omega arith) (omega arith)
  where
    shift : zero + suc j ≡ suc (zero + j)
    shift = omega arith
get_or-store (x ∷ xs) (suc off) bs j d h k =
    ap (λ n. get_or (x ∷ store xs off bs) n d) shift ∙ get_or-store xs off bs j d (omega arith) k
  where
    shift : suc off + j ≡ suc (off + j)
    shift = omega arith

-- From the offset on, the buffer is what was written and what stood behind it.
pub drop-store_at :
    (buf : List ℕ) (off : ℕ) (bs : List ℕ)
    → off + length bs ≤ length buf
    → drop off (store buf off bs) ≡ bs ++ drop (off + length bs) buf
drop-store_at [] zero [] h = refl
drop-store_at [] zero (b ∷ bs) h = absurd (omega arith)
drop-store_at [] (suc off) bs h = absurd (omega arith)
drop-store_at (x ∷ xs) zero [] h = refl
drop-store_at (x ∷ xs) zero (b ∷ bs) h =
    ap (◌∷◌ b) (drop-store_at xs zero bs (omega arith) ∙ ap (λ p. bs ++ p) (shift (length bs)))
  where
    shift : (n : ℕ) → drop (zero + n) xs ≡ drop (zero + suc n) (x ∷ xs)
    shift n = rw (zero-add n, zero-add (suc n))
drop-store_at (x ∷ xs) (suc off) bs h =
    drop-store_at xs off bs (omega arith)
    ∙ ap (λ p. bs ++ p) (ap (λ n. drop n (x ∷ xs)) (shift (length bs)))
  where
    shift : (n : ℕ) → suc (off + n) ≡ suc off + n
    shift n = omega arith

pub get_or-store_before :
    (buf : List ℕ) (off : ℕ) (bs : List ℕ) (j d : ℕ)
    → j < off
    → get_or (store buf off bs) j d ≡ get_or buf j d
get_or-store_before [] off bs j d h = refl
get_or-store_before (x ∷ xs) zero bs j d h = absurd (omega arith)
get_or-store_before (x ∷ xs) (suc off) bs zero d h = refl
get_or-store_before (x ∷ xs) (suc off) bs (suc j) d h =
    get_or-store_before xs off bs j d (omega arith)

-- What lies before the write stays.
pub take-store_before :
    (buf : List ℕ) (off n : ℕ) (bs : List ℕ) → n ≤ off → take n (store buf off bs) ≡ take n buf
take-store_before buf off zero bs h = refl
take-store_before [] off (suc n) bs h = refl
take-store_before (x ∷ xs) zero (suc n) bs h = absurd (omega arith)
take-store_before (x ∷ xs) (suc off) (suc n) bs h =
    ap (◌∷◌ x) (take-store_before xs off n bs (omega arith))

-- What lies behind the write stays.
pub drop-store :
    (buf : List ℕ) (off : ℕ) (bs : List ℕ)
    → drop (off + length bs) (store buf off bs) ≡ drop (off + length bs) buf
drop-store [] off bs = refl
drop-store (x ∷ xs) zero [] = refl
drop-store (x ∷ xs) zero (b ∷ bs) =
    ap (λ n. drop n (b ∷ store xs zero bs)) (shift (length bs))
    ∙ drop-store xs zero bs
    ∙ ap (λ n. drop n (x ∷ xs)) (sym (shift (length bs)))
  where
    shift : (n : ℕ) → zero + suc n ≡ suc (zero + n)
    shift n = omega arith
drop-store (x ∷ xs) (suc off) bs =
    ap (λ n. drop n (x ∷ store xs off bs)) (shift (length bs))
    ∙ drop-store xs off bs
    ∙ ap (λ n. drop n (x ∷ xs)) (sym (shift (length bs)))
  where
    shift : (n : ℕ) → suc off + n ≡ suc (off + n)
    shift n = omega arith

pub store-All {κ} :
    (P : ℕ → Type κ) (buf : List ℕ) (off : ℕ) (bs : List ℕ)
    → All P buf
    → All P bs
    → All P (store buf off bs)
store-All P [] off bs h k = tt
store-All P (x ∷ xs) zero [] h k = h
store-All P (x ∷ xs) zero (b ∷ bs) h k = (k.0, store-All P xs zero bs h.1 k.1)
store-All P (x ∷ xs) (suc off) bs h k = (h.0, store-All P xs off bs h.1 k)
