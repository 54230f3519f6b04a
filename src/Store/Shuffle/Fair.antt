-- ===== src/Store/Shuffle/Fair.antt =====
-- The shuffle permutes the items, where the choices are in range, and no two sequences of choices lead to the same order.
use Prim.Native.Nat.{ℕ, zero, suc, ◌-◌, ◌≤◌, ◌<◌}
use mathlib.Core.List.{Perm}
use mathlib.Core.List.Perm
use mathlib.Core.Path.{subst}
use gdm_platform.Common.{
  List, [], ◌∷◌, Option, map, ◌⊎◌, some, length, ◌≡◌, refl, sym, ap, ◌∙◌, arith, nat_eq,
  if◌then◌else◌, inl, inr, Bool-cases, Unique, Eq, contains, ==_refl, true, Text, Text-eq,
}
use gdm_platform.Store.Shuffle.{get_elem?, read, write, swap, shuffle_from, shuffle_ranking_order}

-- Where the entry at `k` stood before the swap.
abbrev source_of : ℕ → ℕ → ℕ → ℕ
source_of i j k = if nat_eq j k then i else (if nat_eq i k then j else k)

source_of-injective : (i j a b : ℕ) → source_of i j a ≡ source_of i j b → a ≡ b
source_of-injective i j a b h = ground arith

-- What `pickIndex` promises: an index below the bound.
abbrev pub IsPick : (ℕ → ℕ) → Type 0
IsPick pick_index = (m : ℕ) → pick_index (suc m) < suc m

-- No value stands at two places.
abbrev pub IsInjective {ℓ} : {B : Type ℓ} → List B → Type ℓ
IsInjective {B = B} xs =
    (a b : ℕ) (x : B) → get_elem? xs a ≡ some x → get_elem? xs b ≡ some x → a ≡ b

module _ {ℓ} {A : Type ℓ} where
  -- A write trades the old entry for the new one.
  write-perm :
      (xs : List (Option A)) (i : ℕ) (x v : Option A)
      → get_elem? xs i ≡ some x
      → Perm (x ∷ write xs i v) (v ∷ xs)
  write-perm [] i x v h = cc
  write-perm (y ∷ xs) zero x v h = let same : y ≡ x = cc in rw same (Perm.swap v x xs)
  write-perm (y ∷ xs) (suc i) x v h =
      Perm.trans (Perm.swap y x _)
        (Perm.trans (Perm.cons y (write-perm xs i x v h)) (Perm.swap v y xs))

  read_in : (xs : List (Option A)) (i : ℕ) {x : Option A} → get_elem? xs i ≡ some x → read xs i ≡ x
  read_in [] i h = cc
  read_in (y ∷ xs) zero h = cc
  read_in (y ∷ xs) (suc i) h = read_in xs i h

  get_elem?-write :
      (xs : List (Option A)) (i j : ℕ) (v : Option A) {x : Option A}
      → get_elem? xs i ≡ some x
      → get_elem? (write xs i v) j ≡ (if nat_eq i j then some v else get_elem? xs j)
  get_elem?-write [] i j v h = cc
  get_elem?-write (y ∷ xs) zero zero v h = refl
  get_elem?-write (y ∷ xs) zero (suc j) v h = ground arith
  get_elem?-write (y ∷ xs) (suc i) zero v h = ground arith
  get_elem?-write (y ∷ xs) (suc i) (suc j) v h = ground (arith, get_elem?-write xs i j v h)

  -- In range, the swap writes the two entries over each other.
  swap_in :
      (i j : ℕ) (xs : List (Option A)) {x y : Option A}
      → get_elem? xs i ≡ some x
      → get_elem? xs j ≡ some y
      → swap i j xs ≡ write (write xs i y) j x
  unfolding swap
  swap_in i j xs p q = rw (read_in xs i p, read_in xs j q) refl

  get_elem?-swap :
      (i j k : ℕ) (xs : List (Option A)) {x y : Option A}
      → get_elem? xs i ≡ some x
      → get_elem? xs j ≡ some y
      → get_elem? (swap i j xs) k ≡ get_elem? xs (source_of i j k)
  get_elem?-swap i j k xs {x} {y} p q =
      let b = write xs i y in
      let inner : (m : ℕ) → get_elem? b m ≡ (if nat_eq i m then some y else get_elem? xs m) =
        λ m. get_elem?-write xs i m y p in
      let at_j : get_elem? b j ≡ some y = ground (arith, inner j) in
      ap (λ l. get_elem? l k) (swap_in i j xs p q)
      ∙ get_elem?-write b j k x at_j
      ∙ elim (Bool-cases (nat_eq j k)) [
        | inl here ↦ rw here (sym p)
        | inr off ↦ rw off (
            inner k ∙ elim (Bool-cases (nat_eq i k)) [
              | inl there ↦ rw there (sym q)
              | inr away ↦ rw away refl
            ])
      ]

  swap-perm :
      (i j : ℕ) (xs : List (Option A)) {x y : Option A}
      → get_elem? xs i ≡ some x
      → get_elem? xs j ≡ some y
      → Perm (swap i j xs) xs
  swap-perm i j xs {x} {y} p q =
      let b = write xs i y in
      let at_j : get_elem? b j ≡ some y = get_elem?-write xs i j y p ∙ ground (arith, q) in
      subst (λ l. Perm l xs) (sym (swap_in i j xs p q))
        (Perm.cons_inv (Perm.trans (write-perm b j y x at_j) (write-perm xs i x y p)))

  length-write :
      (xs : List (Option A)) (i : ℕ) (v : Option A) {x : Option A}
      → get_elem? xs i ≡ some x
      → length (write xs i v) ≡ length xs
  length-write [] i v h = cc
  length-write (x ∷ xs) zero v h = refl
  length-write (x ∷ xs) (suc i) v h = ap suc (length-write xs i v h)

  length-swap :
      (i j : ℕ) (xs : List (Option A)) {x y : Option A}
      → get_elem? xs i ≡ some x
      → get_elem? xs j ≡ some y
      → length (swap i j xs) ≡ length xs
  length-swap i j xs {x} {y} p q =
      let b = write xs i y in
      let at_j : get_elem? b j ≡ some y = get_elem?-write xs i j y p ∙ ground (arith, q) in
      ap length (swap_in i j xs p q) ∙ length-write b j x at_j ∙ length-write xs i y p

  get_elem?_of_lt :
      (xs : List (Option A)) (i : ℕ) → i < length xs → (x : Option A) × (get_elem? xs i ≡ some x)
  get_elem?_of_lt [] i h = absurd (omega arith)
  get_elem?_of_lt (x ∷ xs) zero h = (x, refl)
  get_elem?_of_lt (x ∷ xs) (suc i) h = get_elem?_of_lt xs i (omega arith)

  -- The loop starts in range and stays there.
  shuffle_from-perm :
      (pick_index : ℕ → ℕ) (i : ℕ) (xs : List (Option A))
      → IsPick pick_index
      → (i ≡ 0) ⊎ (i < length xs)
      → Perm (shuffle_from pick_index i xs) xs
  unfolding shuffle_from
  shuffle_from-perm pick_index zero xs h b = Perm.refl xs
  shuffle_from-perm pick_index (suc i) xs h (inl z) = absurd (omega arith)
  shuffle_from-perm pick_index (suc i) xs h (inr b) =
      let j = pick_index (suc (suc i)) in
      let below : j < suc (suc i) = h (suc i) in
      let (x, p) = get_elem?_of_lt xs (suc i) b in
      let (y, q) = get_elem?_of_lt xs j (omega arith) in
      Perm.trans
        (shuffle_from-perm pick_index i (swap (suc i) j xs) h
          (inr (omega (arith, length-swap (suc i) j xs p q))))
        (swap-perm (suc i) j xs p q)

  -- The loop from `i` down leaves the entries above `i` alone.
  get_elem?-shuffle_from :
      (pick_index : ℕ → ℕ) (i k : ℕ) (xs : List (Option A))
      → IsPick pick_index
      → i < k
      → i < length xs
      → get_elem? (shuffle_from pick_index i xs) k ≡ get_elem? xs k
  unfolding shuffle_from
  get_elem?-shuffle_from pick_index zero k xs h l b = refl
  get_elem?-shuffle_from pick_index (suc i) k xs h l b =
      let j = pick_index (suc (suc i)) in
      let below : j < suc (suc i) = h (suc i) in
      let (x, p) = get_elem?_of_lt xs (suc i) b in
      let (y, q) = get_elem?_of_lt xs j (omega arith) in
      get_elem?-shuffle_from pick_index i k (swap (suc i) j xs) h (omega arith)
        (omega (arith, length-swap (suc i) j xs p q))
      ∙ get_elem?-swap (suc i) j k xs p q
      ∙ ap (get_elem? xs) (ground arith)

  swap-IsInjective :
      (i j : ℕ) (xs : List (Option A)) {x y : Option A}
      → get_elem? xs i ≡ some x
      → get_elem? xs j ≡ some y
      → IsInjective xs
      → IsInjective (swap i j xs)
  swap-IsInjective i j xs p q h a b z s t = source_of-injective i j a b (
      h (source_of i j a) (source_of i j b) z (sym (get_elem?-swap i j a xs p q) ∙ s)
        (sym (get_elem?-swap i j b xs p q) ∙ t))

  -- The entry at `suc i` after the whole loop is the one that was picked.
  picked :
      (pick_index : ℕ → ℕ) (i : ℕ) (xs : List (Option A))
      → IsPick pick_index
      → suc i < length xs
      → get_elem? (shuffle_from pick_index (suc i) xs) (suc i)
        ≡ get_elem? xs (pick_index (suc (suc i)))
  unfolding shuffle_from
  picked pick_index i xs h b =
      let j = pick_index (suc (suc i)) in
      let below : j < suc (suc i) = h (suc i) in
      let (x, p) = get_elem?_of_lt xs (suc i) b in
      let (y, q) = get_elem?_of_lt xs j (omega arith) in
      get_elem?-shuffle_from pick_index i (suc i) (swap (suc i) j xs) h (omega arith)
        (omega (arith, length-swap (suc i) j xs p q))
      ∙ get_elem?-swap (suc i) j (suc i) xs p q
      ∙ ap (get_elem? xs) (ground arith)

  module _ (p q : ℕ → ℕ) (hp : IsPick p) (hq : IsPick q) where
    same_choice :
        (i : ℕ) (xs : List (Option A))
        → suc i < length xs
        → IsInjective xs
        → shuffle_from p (suc i) xs ≡ shuffle_from q (suc i) xs
        → p (suc (suc i)) ≡ q (suc (suc i))
    same_choice i xs b u e =
        let below : p (suc (suc i)) < suc (suc i) = hp (suc i) in
        let (y, there) = get_elem?_of_lt xs (p (suc (suc i))) (omega arith) in
        u (p (suc (suc i))) (q (suc (suc i))) y there (
          sym (picked q i xs hq b)
          ∙ ap (λ l. get_elem? l (suc i)) (sym e)
          ∙ picked p i xs hp b
          ∙ there)

    shuffle_from-injective :
        (i m : ℕ) (xs : List (Option A))
        → i < length xs
        → IsInjective xs
        → shuffle_from p i xs ≡ shuffle_from q i xs
        → suc m ≤ i
        → p (suc (suc m)) ≡ q (suc (suc m))
    unfolding shuffle_from
    shuffle_from-injective zero m xs b u e l = absurd (omega arith)
    shuffle_from-injective (suc i) m xs b u e l =
        let same = same_choice i xs b u e in
        let j = p (suc (suc i)) in
        let below : j < suc (suc i) = hp (suc i) in
        let (x, at_i) = get_elem?_of_lt xs (suc i) b in
        let (y, at_j) = get_elem?_of_lt xs j (omega arith) in
        elim (Bool-cases (nat_eq m i)) [
          | inl last ↦ let it : m ≡ i = ground arith in rw it same
          | inr earlier ↦
              shuffle_from-injective i m (swap (suc i) j xs)
                (omega (arith, length-swap (suc i) j xs at_i at_j))
                (swap-IsInjective (suc i) j xs at_i at_j u)
                (e ∙ ap (λ c. shuffle_from q i (swap (suc i) c xs)) (sym same)) (ground arith)
        ]

length-map-some {ℓ} : {A : Type ℓ} (xs : List A) → length (map some xs) ≡ length xs
length-map-some [] = refl
length-map-some (x ∷ xs) = ap suc (length-map-some xs)

first_in_range {ℓ} :
    {A : Type ℓ} (xs : List A) → (length xs - 1 ≡ 0) ⊎ (length xs - 1 < length (map some xs))
first_in_range [] = inl (omega arith)
first_in_range (x ∷ xs) = inr (omega (arith, length-map-some xs))

-- Where the choices are in range, a shuffle leaves no place undefined and keeps every item as often
-- as it was there.
pub shuffle-perm {ℓ} :
    {A : Type ℓ} (pick_index : ℕ → ℕ) (item_ids : List A)
    → IsPick pick_index
    → Perm (shuffle_ranking_order pick_index item_ids) (map some item_ids)
unfolding shuffle_ranking_order
shuffle-perm pick_index item_ids h =
    shuffle_from-perm pick_index (length item_ids - 1) (map some item_ids) h
      (first_in_range item_ids)

contains_of_get_elem? {ℓ} :
    {A : Type ℓ} ⦃e : Eq A⦄ (xs : List A) (i : ℕ) (x : A)
    → get_elem? xs i ≡ some x
    → contains xs x ≡ true
unfolding contains
contains_of_get_elem? [] i x h = cc
contains_of_get_elem? (y ∷ xs) zero x h = let same : y ≡ x = cc in rw same (rw (==_refl x) refl)
contains_of_get_elem? (y ∷ xs) (suc i) x h = ground (arith, contains_of_get_elem? xs i x h)

Unique-IsInjective {ℓ} : {A : Type ℓ} ⦃e : Eq A⦄ (xs : List A) → Unique xs → IsInjective xs
Unique-IsInjective [] u a b x s t = cc
Unique-IsInjective (y ∷ xs) u zero zero x s t = refl
Unique-IsInjective (y ∷ xs) u zero (suc b) x s t =
    let same : y ≡ x = cc in cc (contains_of_get_elem? xs b x t, u.0, ap (contains xs) same)
Unique-IsInjective (y ∷ xs) u (suc a) zero x s t =
    let same : y ≡ x = cc in cc (contains_of_get_elem? xs a x s, u.0, ap (contains xs) same)
Unique-IsInjective (y ∷ xs) u (suc a) (suc b) x s t = ap suc (Unique-IsInjective xs u.1 a b x s t)

get_elem?-map-some {ℓ} :
    {A : Type ℓ} (xs : List A) (i : ℕ) (x : Option A)
    → get_elem? (map some xs) i ≡ some x
    → (v : A) × (x ≡ some v) × (get_elem? xs i ≡ some v)
get_elem?-map-some [] i x h = cc
get_elem?-map-some (y ∷ xs) zero x h = let same : some y ≡ x = cc in (y, sym same, refl)
get_elem?-map-some (y ∷ xs) (suc i) x h = get_elem?-map-some xs i x h

map-some-IsInjective {ℓ} : {A : Type ℓ} (xs : List A) → IsInjective xs → IsInjective (map some xs)
map-some-IsInjective xs u a b x s t =
    let (v, p, at_a) = get_elem?-map-some xs a x s in
    let (w, q, at_b) = get_elem?-map-some xs b x t in
    let same : w ≡ v = cc (p, q) in u a b v at_a (at_b ∙ ap some same)

-- The shuffle is unbiased: for distinct items, two sequences of choices in range that lead to the same
-- order agree at every bound that the loop asks for, from 2 to the number of items; so each order
-- comes of one sequence of choices only.
pub choices_of_order :
    (p q : ℕ → ℕ) (item_ids : List Text) (bound : ℕ)
    → IsPick p
    → IsPick q
    → Unique item_ids
    → shuffle_ranking_order p item_ids ≡ shuffle_ranking_order q item_ids
    → 2 ≤ bound
    → bound ≤ length item_ids
    → p bound ≡ q bound
unfolding shuffle_ranking_order
choices_of_order p q item_ids zero hp hq u e l b = absurd (omega arith)
choices_of_order p q item_ids (suc zero) hp hq u e l b = absurd (omega arith)
choices_of_order p q item_ids (suc (suc m)) hp hq u e l b =
    shuffle_from-injective p q hp hq (length item_ids - 1) m (map some item_ids)
      (omega (arith, length-map-some item_ids))
      (map-some-IsInjective item_ids (Unique-IsInjective item_ids u)) e (omega arith)
