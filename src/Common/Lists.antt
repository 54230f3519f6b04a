-- ===== src/Common/Lists.antt =====
-- Lists as the source uses arrays: membership by `===`, distinct values, first and last matches.
use Prim.Native.Nat.{ℕ, zero, suc}
use mathlib.Core.Path.{◌≡◌, refl}
use mathlib.Core.Logic.{◌⊎◌, inl, inr}
use mathlib.Core.Bool.{Bool, true, false, ◌||◌}
use mathlib.Core.Option.{Option, none, some}
use mathlib.Core.List.{List, [], ◌∷◌, ◌++◌}
use native.Mathlib.Omega.{arith}
use gdm_platform.Common.Tests.{Eq, ◌==◌, ==_refl, if◌then◌else◌, Bool-cases}

module _ {ℓ} {A : Type ℓ} where
  abbrev pub length : List A → ℕ
  length [] = 0
  length (x ∷ xs) = suc (length xs)

  -- `xs.filter(p)`.
  abbrev pub keep : (A → Bool) → List A → List A
  keep p [] = []
  keep p (x ∷ xs) = if p x then x ∷ keep p xs else keep p xs

  -- `xs.find(p)`.
  abbrev pub find : (A → Bool) → List A → Option A
  find p [] = none
  find p (x ∷ xs) = if p x then some x else find p xs

  -- `xs.some(p)`.
  abbrev pub any : (A → Bool) → List A → Bool
  any p [] = false
  any p (x ∷ xs) = p x || any p xs

  -- `xs.slice(0, n)`.
  abbrev pub take : ℕ → List A → List A
  take zero xs = []
  take (suc n) [] = []
  take (suc n) (x ∷ xs) = x ∷ take n xs

  -- `xs[i]`, with a value for an index out of range.
  abbrev pub get_or : List A → ℕ → A → A
  get_or [] i d = d
  get_or (x ∷ xs) zero d = x
  get_or (x ∷ xs) (suc i) d = get_or xs i d

  -- `xs.at(-1)`.
  abbrev pub get_last? : List A → Option A
  get_last? [] = none
  get_last? (x ∷ []) = some x
  get_last? (x ∷ y ∷ xs) = get_last? (y ∷ xs)

  abbrev pub All {κ} : (A → Type κ) → List A → Type κ
  All P [] = Unit
  All P (x ∷ xs) = P x × All P xs

-- The value stands in the list.
abbrev pub Among : {A : Type 0} → A → List A → Type 0
Among a [] = ⊥
Among a (x ∷ xs) = (a ≡ x) ⊎ Among a xs

module _ {ℓ} {A : Type ℓ} ⦃e : Eq A⦄ where
  -- `new Set(xs).has(a)` and `xs.includes(a)`.
  unfoldable pub contains : List A → A → Bool
  contains [] a = false
  contains (x ∷ xs) a = x == a || contains xs a

  -- The values of a `Set` are kept in the order of insertion.
  unfoldable pub add_distinct : List A → List A → List A
  add_distinct seen [] = seen
  add_distinct seen (x ∷ xs) = add_distinct (if contains seen x then seen else seen ++ x ∷ []) xs

  -- `[...new Set(xs)]`.
  abbrev pub distinct : List A → List A
  distinct xs = add_distinct [] xs

  pub contains-append :
      (xs ys : List A) (a : A) → contains (xs ++ ys) a ≡ (contains xs a || contains ys a)
  unfolding contains
  contains-append [] ys a = refl
  contains-append (x ∷ xs) ys a = ground (arith, contains-append xs ys a)

  -- Adding keeps what is there, adds what is new, and makes nothing up.
  pub contains-add_distinct :
      (seen xs : List A) (a : A)
      → contains (add_distinct seen xs) a ≡ (contains seen a || contains xs a)
  unfolding add_distinct contains
  contains-add_distinct seen [] a = ground arith
  contains-add_distinct seen (x ∷ xs) a = ground (
    arith,
    contains-add_distinct (if contains seen x then seen else seen ++ x ∷ []) xs a,
    contains-append seen (x ∷ []) a,
    e.equals_iff x a,
  )

  -- No value stands twice: each is absent from what follows it.
  abbrev pub Unique : List A → Type 0
  Unique [] = Unit
  Unique (x ∷ xs) = (contains xs x ≡ false) × Unique xs

  pub Unique-snoc :
      (xs : List A) (a : A) → Unique xs → contains xs a ≡ false → Unique (xs ++ a ∷ [])
  unfolding contains
  Unique-snoc [] a u h = (refl, tt)
  Unique-snoc (x ∷ xs) a u h = (
    ground (arith, contains-append xs (a ∷ []) x, e.equals_iff x a, e.equals_iff a x),
    Unique-snoc xs a u.1 (ground arith),
  )

  pub add_distinct-Unique : (seen xs : List A) → Unique seen → Unique (add_distinct seen xs)
  unfolding add_distinct
  add_distinct-Unique seen [] u = u
  add_distinct-Unique seen (x ∷ xs) u = elim (Bool-cases (contains seen x)) [
    | inl old ↦ rw old (add_distinct-Unique seen xs u)
    | inr new ↦ rw new (add_distinct-Unique (seen ++ x ∷ []) xs (Unique-snoc seen x u new))
  ]

  abbrev pub Subset : List A → List A → Type ℓ
  Subset xs ys = (a : A) → contains xs a ≡ true → contains ys a ≡ true

  -- Adding values that are all there changes nothing.
  pub add_distinct_of_subset : (seen xs : List A) → Subset xs seen → add_distinct seen xs ≡ seen
  unfolding add_distinct contains
  add_distinct_of_subset seen [] h = refl
  add_distinct_of_subset seen (x ∷ xs) h =
      let old : contains seen x ≡ true = h x (rw (==_refl x)) in
      rw old (add_distinct_of_subset seen xs (λ a k. h a (ground arith)))

  pub add_distinct_idem :
      (seen xs : List A) → add_distinct (add_distinct seen xs) xs ≡ add_distinct seen xs
  add_distinct_idem seen xs =
      add_distinct_of_subset (add_distinct seen xs) xs
        (λ a h. rw (contains-add_distinct seen xs a) (ground arith))
