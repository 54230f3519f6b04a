-- ===== src/Checkpoint/Windows/Best.antt =====
-- Which record the deduplication keeps under each window boundary.
use gdm_platform.Common.{
  Text, Text-eq, List, [], ◌∷◌, map, Option, none, some, true, false, absorb, All, find_key,
  distinct, entry, get, find_key-values, map-key-values, absorb-IsKeyed, get-absorb, keys-absorb,
  ◌≡◌, refl, sym, ◌∙◌, ◌==◌, ◌⊎◌, inl, inr, arith, Bool-cases, IsKeyed, text_eq_iff, key_of_found,
  Among, meet,
}
use gdm_platform.Shared.Interventions.{WindowEvaluation}
use gdm_platform.Checkpoint.Windows.{outranks, better, boundary, dedupe_window_evaluations}

module _ {N : Type 0} where
  better-boundary :
      (c x : WindowEvaluation N) → boundary c ≡ boundary x → boundary (better c x) ≡ boundary x
  unfolding better
  better-boundary c x p = ground arith

  deduped-IsKeyed :
      (xs : List (WindowEvaluation N)) → IsKeyed boundary (absorb boundary (λ e. e) better [] xs)
  deduped-IsKeyed xs = absorb-IsKeyed boundary (λ e. e) better (λ x. refl) better-boundary [] xs tt

  outranks_trans :
      (x b e : WindowEvaluation N)
      → outranks x b ≡ false
      → outranks b e ≡ false
      → outranks x e ≡ false
  unfolding outranks
  outranks_trans x b e p q = ground arith

  outranks-better :
      (c x : WindowEvaluation N)
      → (outranks c (better c x) ≡ false) × (outranks x (better c x) ≡ false)
  unfolding better outranks
  outranks-better c x = ground arith

  outranks_irrefl : (x : WindowEvaluation N) → outranks x x ≡ false
  unfolding outranks
  outranks_irrefl x = ground arith

  better_cases : (c x : WindowEvaluation N) → (better c x ≡ c) ⊎ (better c x ≡ x)
  unfolding better
  better_cases c x = ground arith

  abbrev Beats : Option (WindowEvaluation N) → WindowEvaluation N → Type 0
  Beats none e = Unit
  Beats (some c) e = outranks c e ≡ false

  abbrev Unbeaten : Text → List (WindowEvaluation N) → WindowEvaluation N → Type 0
  Unbeaten j xs e = All (λ x. boundary x ≡ j → outranks x e ≡ false) xs

  abbrev kept :
      Text → Option (WindowEvaluation N) → List (WindowEvaluation N) → Option (WindowEvaluation N)
  kept j = entry boundary (λ e. e) better j

  kept-best :
      (j : Text) (o : Option (WindowEvaluation N)) (xs : List (WindowEvaluation N))
      {e : WindowEvaluation N}
      → kept j o xs ≡ some e
      → Unbeaten j xs e × ((o ≡ some e) ⊎ Among e xs) × Beats o e
  unfolding entry
  kept-best j none [] p = cc
  kept-best j (some c) [] {e} p = (tt, inl p, ground (arith, outranks_irrefl e))
  kept-best j o (x ∷ xs) {e} p = elim (Bool-cases (boundary x == j)) [
    | inl hit ↦ here o hit (kept-best j (some (meet boundary (λ e. e) better o x)) xs (rw hit at p))
    | inr miss ↦ past miss (kept-best j o xs (rw miss at p))
  ]
    where
      here :
          (o : Option (WindowEvaluation N))
          → (boundary x == j) ≡ true
          → Unbeaten j xs e
            × ((some (meet boundary (λ e. e) better o x) ≡ some e) ⊎ Among e xs)
            × Beats (some (meet boundary (λ e. e) better o x)) e
          → Unbeaten j (x ∷ xs) e × ((o ≡ some e) ⊎ Among e (x ∷ xs)) × Beats o e
      here none hit (later, origin, beats) = ((λ _. beats, later), ground arith, tt)
      here (some c) hit (later, origin, beats) =
          let (old, new) = outranks-better c x in
          (
            (λ _. outranks_trans x (better c x) e new beats, later),
            ground (arith, better_cases c x),
            outranks_trans c (better c x) e old beats,
          )

      past :
          (boundary x == j) ≡ false
          → Unbeaten j xs e × ((o ≡ some e) ⊎ Among e xs) × Beats o e
          → Unbeaten j (x ∷ xs) e × ((o ≡ some e) ⊎ Among e (x ∷ xs)) × Beats o e
      past miss (later, origin, beats) =
          ((λ at. ground (arith, text_eq_iff (boundary x) j), later), ground arith, beats)

  -- A kept record stands for its boundary, comes from the input, and no record of the same
  -- boundary outranks it.
  pub record IsBest (j : Text) (xs : List (WindowEvaluation N)) (e : WindowEvaluation N)
      : Type 0 where
    pub at_boundary : boundary e ≡ j
    pub among : Among e xs
    pub unbeaten : All (λ x. boundary x ≡ j → outranks x e ≡ false) xs

  find_key-deduped :
      (j : Text) (xs : List (WindowEvaluation N))
      → find_key boundary j (dedupe_window_evaluations xs) ≡ kept j none xs
  unfolding dedupe_window_evaluations get
  find_key-deduped j xs =
      find_key-values boundary j _ (deduped-IsKeyed xs)
      ∙ get-absorb boundary (λ e. e) better j [] xs

  pub map-deduped :
      (xs : List (WindowEvaluation N))
      → map boundary (dedupe_window_evaluations xs) ≡ distinct (map boundary xs)
  unfolding dedupe_window_evaluations
  map-deduped xs =
      map-key-values boundary _ (deduped-IsKeyed xs) ∙ keys-absorb boundary (λ e. e) better [] xs

  -- The deduplicated records stand in the order in which their boundaries first appear, one for
  -- each boundary, and each is a record of the input that no other of its boundary outranks.
  pub dedupe-IsBest :
      (xs : List (WindowEvaluation N))
      → (map boundary (dedupe_window_evaluations xs) ≡ distinct (map boundary xs))
        × ((j : Text) (e : WindowEvaluation N)
            → find_key boundary j (dedupe_window_evaluations xs) ≡ some e
            → IsBest j xs e)
  dedupe-IsBest xs = (map-deduped xs, λ j e found. best j e found)
    where
      best :
          (j : Text) (e : WindowEvaluation N)
          → find_key boundary j (dedupe_window_evaluations xs) ≡ some e
          → IsBest j xs e
      best j e found =
          let (all, origin, _) = kept-best j none xs (sym (find_key-deduped j xs) ∙ found) in
          record {
            at_boundary = key_of_found boundary j (dedupe_window_evaluations xs) e found;
            among = ground arith;
            unbeaten = all;
          }
