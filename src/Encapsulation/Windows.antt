-- ===== src/Encapsulation/Windows.antt =====
-- A part of a buffer, and the numbers that are read in it.
use esp32_control_logix.Base.{
  ℕ, zero, suc, ◌+◌, ◌≤◌, ◌<◌, ◌≡◌, refl, sym, ap, ◌∙◌, List, [], ◌∷◌, length, take, drop, get_or,
  arith,
}
use esp32_control_logix.Encapsulation.{byte_at, get_u16, get_u32}

pub get_or-take : (n : ℕ) (xs : List ℕ) (j d : ℕ) → j < n → get_or (take n xs) j d ≡ get_or xs j d
get_or-take zero xs j d h = absurd (omega arith)
get_or-take (suc n) [] j d h = refl
get_or-take (suc n) (x ∷ xs) zero d h = refl
get_or-take (suc n) (x ∷ xs) (suc j) d h = get_or-take n xs j d (omega arith)

get_or-drop : (k : ℕ) (xs : List ℕ) (j d : ℕ) → get_or (drop k xs) j d ≡ get_or xs (k + j) d
get_or-drop zero xs j d = ap (λ (i : ℕ). get_or xs i d) (omega arith)
get_or-drop (suc k) [] j d = refl
get_or-drop (suc k) (x ∷ xs) j d =
    get_or-drop k xs j d ∙ ap (λ (i : ℕ). get_or (x ∷ xs) i d) (shift j)
  where
    shift : (j : ℕ) → suc (k + j) ≡ suc k + j
    shift j = omega arith

-- The bytes `part` stand in the buffer at `off`.
module _ (buf part : List ℕ) (off : ℕ) (there : take (length part) (drop off buf) ≡ part) where
  byte_at-window : (j : ℕ) → j < length part → byte_at buf (off + j) ≡ byte_at part j
  byte_at-window j h =
      sym (get_or-drop off buf j 0)
      ∙ sym (get_or-take (length part) (drop off buf) j 0 h)
      ∙ ap (λ xs. byte_at xs j) there

  near : (j k : ℕ) → j + k < length part → byte_at buf (off + j + k) ≡ byte_at part (j + k)
  near j k h = ap (byte_at buf) (omega arith) ∙ byte_at-window (j + k) h

  pub get_u16-window : (j : ℕ) → j + 2 ≤ length part → get_u16 buf (off + j) ≡ get_u16 part j
  unfolding get_u16
  get_u16-window j h = rw (byte_at-window j (omega arith), near j 1 (omega arith)) refl

  pub get_u32-window : (j : ℕ) → j + 4 ≤ length part → get_u32 buf (off + j) ≡ get_u32 part j
  unfolding get_u32
  get_u32-window j h =
      rw
        (
          byte_at-window j (omega arith),
          near j 1 (omega arith),
          near j 2 (omega arith),
          near j 3 (omega arith),
        )
        refl
