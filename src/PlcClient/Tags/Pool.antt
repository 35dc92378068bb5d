-- ===== src/PlcClient/Tags/Pool.antt =====
-- The pool of tags: what `createTag` finds, and how many tags there are after it.
use esp32_control_logix.Base.{
  ℕ, suc, ◌+◌, ◌≤◌, ◌≡◌, ◌⊎◌, inl, inr, refl, ap, ◌∙◌, true, false, Option, some, List, [], ◌∷◌,
  length, get_elem?, set, take, Bool-cases, arith,
}
use esp32_control_logix.Base.Int.{ℤ, pos, negsuc}
use esp32_control_logix.Status.{not_ready, no_memory, to_int}
use esp32_control_logix.Tag
use esp32_control_logix.PlcClient.{PlcClient, Slot, free_from, find_free_tag, tag_count}
use esp32_control_logix.PlcClient.Tags.{create_tag, bad_tag_name}

-- The slot at `k` is free, and writing a used one there takes it.
pub record Free (slots : List Slot) (k : ℕ) : Type 0 where
  pub slot : Slot
  pub found : get_elem? slots k ≡ some slot
  pub unused : slot.in_use ≡ false
  pub taken : (s : Slot) → s.in_use ≡ true → tag_count (set slots k s) ≡ tag_count slots + 1
  pub same_length : (s : Slot) → length (set slots k s) ≡ length slots

-- The slot at the front, or behind a slot.
here : (s : Slot) (ss : List Slot) → s.in_use ≡ false → Free (s ∷ ss) 0
unfolding tag_count
here s ss e = record {
  slot = s;
  found = refl;
  unused = e;
  taken = λ s' e'. ground arith;
  same_length = λ s'. refl;
}

there : (s : Slot) (ss : List Slot) (k : ℕ) → Free ss k → Free (s ∷ ss) (suc k)
unfolding tag_count
there s ss k f = record {
  slot = f.slot;
  found = f.found;
  unused = f.unused;
  taken = λ s' e'. ground (arith, f.taken s' e');
  same_length = λ s'. ap suc (f.same_length s');
}

pub data Search (slots : List Slot) (i : ℕ) (r : ℤ) : Type 0 where
  found : (k : ℕ) → r ≡ pos (i + k) → Free slots k → Search slots i r
  full : r ≡ negsuc 0 → tag_count slots ≡ length slots → Search slots i r

front_free :
    (i : ℕ) (s : Slot) (ss : List Slot)
    → s.in_use ≡ false
    → Search (s ∷ ss) i (free_from i (s ∷ ss))
unfolding free_from
front_free i s ss e =
    let place : free_from i (s ∷ ss) ≡ pos (i + 0) = ground (arith, e) in
    found 0 place (here s ss e)

front_used :
    (i : ℕ) (s : Slot) (ss : List Slot)
    → s.in_use ≡ true
    → Search ss (i + 1) (free_from (i + 1) ss)
    → Search (s ∷ ss) i (free_from i (s ∷ ss))
unfolding free_from tag_count
front_used i s ss e (found k r f) =
    let shift : i + 1 + k ≡ i + suc k = omega arith in
    let place : free_from i (s ∷ ss) ≡ pos (i + suc k) = ground (arith, e, r, shift) in
    found (suc k) place (there s ss k f)
front_used i s ss e (full r all) = full (ground (arith, e, r)) (ground (arith, e, all))

search_lem : (i : ℕ) (slots : List Slot) → Search slots i (free_from i slots)
unfolding free_from tag_count
search_lem i [] = full refl refl
search_lem i (s ∷ ss) = elim (Bool-cases s.in_use) [
  | inl e ↦ front_used i s ss e (search_lem (i + 1) ss)
  | inr e ↦ front_free i s ss e
]

pub tag_count-le : (slots : List Slot) → tag_count slots ≤ length slots
unfolding tag_count
tag_count-le [] = omega arith
tag_count-le (s ∷ ss) = ground (arith, tag_count-le ss)

-- What `create_tag` with a good name leaves.
abbrev pub Created : PlcClient → ℤ × PlcClient → Type 0
Created c (h, c') =
    ((k : ℕ) × (h ≡ pos k)
      × Free c.slots k
      × (tag_count c'.slots ≡ tag_count c.slots + 1)
      × (length c'.slots ≡ length c.slots))
    ⊎ ((h ≡ to_int no_memory) × (c' ≡ c) × (tag_count c.slots ≡ length c.slots))

searched :
    (c : PlcClient) (name : Option (List ℕ)) (element_count : ℕ)
    → bad_tag_name name ≡ false
    → Search c.slots 0 (find_free_tag c.slots)
    → Created c (create_tag c name element_count)
unfolding create_tag
searched c name element_count good (found k r f) =
    let place : find_free_tag c.slots ≡ pos k = r ∙ ap pos (omega arith) in
    let new : Slot = record f.slot {
      name = take 63 (Tag.characters name);
      element_count = element_count;
      prev_status = not_ready;
      in_use = true;
    } in
    let made : create_tag c name element_count ≡ (pos k, record c { slots = set c.slots k new }) =
      ground (arith, place, f.found) in
    inl (
      k,
      ap (λ (r : ℤ × PlcClient). r.0) made,
      f,
      ap (λ (r : ℤ × PlcClient). tag_count r.1.slots) made ∙ f.taken new refl,
      ap (λ (r : ℤ × PlcClient). length r.1.slots) made ∙ f.same_length new,
    )
searched c name element_count good (full r all) =
    let same : create_tag c name element_count ≡ (to_int no_memory, c) = ground (arith, r) in
    inr (ap (λ (r : ℤ × PlcClient). r.0) same, ap (λ (r : ℤ × PlcClient). r.1) same, all)

-- With a name that is accepted, `createTag` either takes a free slot, whose index it returns, and
-- there is one tag more in a pool of the same size; or every slot is in use, and it returns
-- `NoMemory` and changes nothing.
pub create_tag-Created :
    (c : PlcClient) (name : Option (List ℕ)) (element_count : ℕ)
    → bad_tag_name name ≡ false
    → Created c (create_tag c name element_count)
unfolding find_free_tag
create_tag-Created c name element_count good =
    searched c name element_count good (search_lem 0 c.slots)
