-- ===== src/Store/Lookup/Least.antt =====
-- The first of a sorted query.
use mathlib.Core.Path.{subst}
use gdm_platform.Common.{
  List, [], ◌∷◌, some, Bool, true, false, keep, sort, All, Among, insert_sorted, Sorted,
  sort-Sorted, or_else, ap, ◌≡◌, refl, Bool-cases, ◌⊎◌, inl, inr,
}
use gdm_platform.Store.Lookup.{first}

module _ {A : Type 0} (le : A → A → Bool) (P : A → Type 0) where
  All-insert_sorted : (x : A) (xs : List A) → P x → All P xs → All P (insert_sorted le x xs)
  unfolding insert_sorted
  All-insert_sorted x [] p h = (p, tt)
  All-insert_sorted x (y ∷ ys) p h = elim (Bool-cases (le x y)) [
    | inl before ↦ rw before (p, h)
    | inr behind ↦ rw behind (h.0, All-insert_sorted x ys p h.1)
  ]

  All_of_insert_sorted : (x : A) (xs : List A) → All P (insert_sorted le x xs) → P x × All P xs
  unfolding insert_sorted
  All_of_insert_sorted x [] h = h
  All_of_insert_sorted x (y ∷ ys) h = elim (Bool-cases (le x y)) [
    | inl before ↦ rw before at h
    | inr behind ↦
        let there = rw behind at h in
        let (p, rest) = All_of_insert_sorted x ys there.1 in (p, (there.0, rest))
  ]

  pub All-sort : (xs : List A) → All P xs → All P (sort le xs)
  unfolding sort
  All-sort [] h = tt
  All-sort (x ∷ xs) h = All-insert_sorted x (sort le xs) h.0 (All-sort xs h.1)

  All_of_sort : (xs : List A) → All P (sort le xs) → All P xs
  unfolding sort
  All_of_sort [] h = tt
  All_of_sort (x ∷ xs) h =
      let (p, rest) = All_of_insert_sorted x (sort le xs) h in (p, All_of_sort xs rest)

module _ {A : Type 0} where
  pub first-All : (P : A → Type 0) (xs : List A) {a : A} → All P xs → first xs ≡ some a → P a
  first-All P [] h e = cc
  first-All P (x ∷ xs) h e = let same : x ≡ _ = ap (λ o. or_else o x) e in subst P same h.0

  pub All-weaken : {P Q : A → Type 0} (xs : List A) → ((a : A) → P a → Q a) → All P xs → All Q xs
  All-weaken [] f h = tt
  All-weaken (x ∷ xs) f h = (f x h.0, All-weaken xs f h.1)

  pub keep-All : (p : A → Bool) (xs : List A) → All (λ a. Among a xs × (p a ≡ true)) (keep p xs)
  keep-All p [] = tt
  keep-All p (x ∷ xs) =
      let deeper = All-weaken (keep p xs) (λ a h. (inr h.0, h.1)) (keep-All p xs) in
      elim (Bool-cases (p x)) [
        | inl in_ ↦ rw in_ ((inl refl, in_), deeper)
        | inr out ↦ rw out deeper
      ]

  pub All_of_keep :
      (P : A → Type 0) (p : A → Bool) (xs : List A)
      → All P (keep p xs)
      → All (λ a. (p a ≡ false) ⊎ P a) xs
  All_of_keep P p [] h = tt
  All_of_keep P p (x ∷ xs) h = elim (Bool-cases (p x)) [
    | inl in_ ↦ let k = rw in_ at h in (inr k.0, All_of_keep P p xs k.1)
    | inr out ↦ (inl out, All_of_keep P p xs (rw out at h))
  ]

  -- The first of the sorted list comes before every other value.
  pub first-least :
      (le : A → A → Bool)
      → ((a b : A) → le a b ≡ false → le b a ≡ true)
      → ((a b c : A) → le a b ≡ true → le b c ≡ true → le a c ≡ true)
      → (xs : List A) {a : A} → first (sort le xs) ≡ some a
      → All (λ b. le a b ≡ true) xs
  first-least le total trans xs {a} e =
      All_of_sort le (λ b. le a b ≡ true) xs (head (sort le xs) (sort-Sorted le total trans xs) e)
    where
      reflexive : (b : A) → le b b ≡ true
      reflexive b = elim (Bool-cases (le b b)) [ inl y ↦ y | inr n ↦ total b b n ]

      head : (ys : List A) → Sorted le ys → first ys ≡ some a → All (λ b. le a b ≡ true) ys
      head [] h p = cc
      head (y ∷ ys) h p =
          let same : y ≡ a = ap (λ o. or_else o y) p in
          subst (λ z. All (λ b. le z b ≡ true) (y ∷ ys)) same (reflexive y, h.0)
