-- ===== src/Sessions/Assignment/Balanced.antt =====
-- The condition that a new group gets.
use Prim.Native.Nat.{ℕ, ◌≤◌, ◌<◌}
use mathlib.Core.Path.{subst}
use gdm_platform.Common.{
  Text, Text-eq, text, insert_sorted, is_some, List, [], ◌∷◌, Option, none, some, Bool, true, false,
  leb, ◌==◌, ==_iff, find, sort, or_else, All, Among, ◌≡◌, refl, sym, ap, ◌∙◌, ◌⊎◌, arith,
  Bool-cases, Option-cases, inl, inr,
}
use gdm_platform.Shared.Models.{Condition}
use gdm_platform.Store.State.{StoreState}
use gdm_platform.Store.Rounds.{claimed_count}
use gdm_platform.Store.Lookup.{first, get_condition}
use gdm_platform.Store.Lookup.Least.{first-All, first-least, All-sort, All-weaken}
use gdm_platform.Store.Settings.{list_conditions}
use gdm_platform.Sessions.State.{ok, failed, ServiceError}
use gdm_platform.Sessions.Assignment.{
  Recruiting, is_recruiting, recruiting_conditions, choose_condition,
}

found_among :
    {A : Type 0} (p : A → Bool) (xs : List A) (a : A)
    → find p xs ≡ some a
    → Among a xs × (p a ≡ true)
found_among p [] a h = cc
found_among p (x ∷ xs) a h = elim (Bool-cases (p x)) [
  | inl hit ↦ let same : x ≡ a = cc (rw hit at h) in (inl (sym same), ap p (sym same) ∙ hit)
  | inr miss ↦ let (a_in, holds) = found_among p xs a (rw miss at h) in (inr a_in, holds)
]

module _ {N : Type 0} (st : StoreState N) (round_id : ℕ) where
  abbrev claimed_le : Recruiting N → Recruiting N → Bool
  claimed_le a b = leb a.claimed b.claimed

  -- An entry stands for a condition that recruits.
  IsEntry : List (Condition N) → Recruiting N → Type 0
  IsEntry cs r =
      Among r.condition cs
      × (is_recruiting st round_id r.condition ≡ true)
      × (r.claimed ≡ claimed_count st r.condition.id round_id)

  recruiting-IsEntry :
      (cs : List (Condition N)) → All (IsEntry cs) (recruiting_conditions st round_id cs)
  unfolding recruiting_conditions IsEntry
  recruiting-IsEntry [] = tt
  recruiting-IsEntry (c ∷ cs) =
      let deeper =
        All-weaken (recruiting_conditions st round_id cs) (λ a (i, r, k). (inr i, r, k))
          (recruiting-IsEntry cs) in
      elim (Bool-cases (is_recruiting st round_id c)) [
        | inl recruits ↦ rw (recruits, recruiting_conditions) ((inl refl, recruits, refl), deeper)
        | inr closed ↦ rw (closed, recruiting_conditions) deeper
      ]

  -- What holds of the entries holds of the conditions that recruit.
  All_of_recruiting :
      (least : ℕ) (cs : List (Condition N))
      → All
          (λ (r : Recruiting N). leb least r.claimed ≡ true)
          (recruiting_conditions st round_id cs)
      → All
          (λ c. (is_recruiting st round_id c ≡ false) ⊎ (least ≤ claimed_count st c.id round_id))
          cs
  unfolding recruiting_conditions
  All_of_recruiting least [] h = tt
  All_of_recruiting least (c ∷ cs) h = elim (Bool-cases (is_recruiting st round_id c)) [
    | inl recruits ↦
        let k = rw (recruits, recruiting_conditions) at h in
        (inr (ground (arith, k.0)), All_of_recruiting least cs k.1)
    | inr closed ↦
        (inl closed, All_of_recruiting least cs (rw (closed, recruiting_conditions) at h))
  ]

  -- No recruiting condition has fewer sessions.
  abbrev pub HasFewest : Condition N → Type 0
  HasFewest c =
      All
        (λ d.
          (is_recruiting st round_id d ≡ false)
          ⊎ (claimed_count st c.id round_id ≤ claimed_count st d.id round_id))
        st.conditions

  least-HasFewest :
      (r : Recruiting N)
      → first (sort claimed_le (recruiting_conditions st round_id st.conditions)) ≡ some r
      → Among r.condition st.conditions
        × (is_recruiting st round_id r.condition ≡ true)
        × HasFewest r.condition
  unfolding IsEntry
  least-HasFewest r h =
      let entries = recruiting_conditions st round_id st.conditions in
      let (there, recruits, same) =
        first-All (IsEntry st.conditions) (sort claimed_le entries)
          (All-sort claimed_le (IsEntry st.conditions) entries (recruiting-IsEntry st.conditions))
          h in
      let least =
        first-least claimed_le (λ a b p. ground arith) (λ a b c p q. ground arith) entries h in
      (
        there,
        recruits,
        subst
            (λ k.
              All
                (λ d. (is_recruiting st round_id d ≡ false) ⊎ (k ≤ claimed_count st d.id round_id))
                st.conditions)
            same (All_of_recruiting r.claimed st.conditions least),
      )

  -- It is stored, it recruits, and no recruiting condition has fewer sessions.
  IsBalanced : Condition N → Type 0
  IsBalanced c = Among c st.conditions × (is_recruiting st round_id c ≡ true) × HasFewest c

  unasked : (c : Condition N) → choose_condition st round_id none ≡ ok c → IsBalanced c
  unfolding choose_condition list_conditions IsBalanced
  unasked c h =
      elim (Option-cases
        (first (sort claimed_le (recruiting_conditions st round_id st.conditions)))) [
          | inl full ↦ cc (rw (full, choose_condition) at h)
          | inr (r, p) ↦
              let same : r.condition ≡ c = cc (rw (p, choose_condition) at h) in
              subst IsBalanced same (least-HasFewest r p)
        ]

  asked :
      (d : ℕ) (id : List ℕ) (c : Condition N)
      → choose_condition st round_id (some (d ∷ id)) ≡ ok c
      → Among c st.conditions × (is_recruiting st round_id c ≡ true) × (c.id ≡ d ∷ id)
  unfolding choose_condition get_condition
  asked d id c h = elim (Option-cases (get_condition st (d ∷ id))) [
    | inl unknown ↦ cc (rw (unknown, choose_condition, get_condition) at h)
    | inr (found, p) ↦
        let (there, named) =
          found_among (λ (x : Condition N). x.id == (d ∷ id)) st.conditions found p in
        let h' = rw (p, choose_condition, get_condition) at h in
        elim (Bool-cases (is_recruiting st round_id found)) [
          | inl recruits ↦
              let same : found ≡ c = cc (rw recruits at h') in
              subst
                (λ x.
                  Among x st.conditions × (is_recruiting st round_id x ≡ true) × (x.id ≡ d ∷ id))
                same (there, recruits, (==_iff found.id (d ∷ id)).0 named)
          | inr closed ↦ cc (rw closed at h')
        ]
  ]

-- The condition that is assigned is stored, active, and below its goal in this round; it is the one
-- that was asked for, or, if none was, no condition that recruits has fewer sessions in the round.
pub choose_condition-HasFewest :
    {N : Type 0} (st : StoreState N) (round_id : ℕ) (asked_for : Option Text) (c : Condition N)
    → choose_condition st round_id asked_for ≡ ok c
    → Among c st.conditions
      × (c.active ≡ true)
      × (claimed_count st c.id round_id < c.goal)
      × ((asked_for ≡ some c.id) ⊎ ((or_else asked_for [] ≡ []) × HasFewest st round_id c))
unfolding IsBalanced choose_condition
choose_condition-HasFewest st round_id none c h =
    let (there, recruits, fewest) = unasked st round_id c h in
    (there, ground arith, ground arith, inr (refl, fewest))
choose_condition-HasFewest st round_id (some []) c h =
    let (there, recruits, fewest) = unasked st round_id c h in
    (there, ground arith, ground arith, inr (refl, fewest))
choose_condition-HasFewest st round_id (some (d ∷ id)) c h =
    let (there, recruits, named) = asked st round_id d id c h in
    (there, ground arith, ground arith, inl (ap some (sym named)))

-- A list that is sorted to an empty one is empty.
first-insert_sorted :
    {A : Type 0} (le : A → A → Bool) (x : A) (xs : List A)
    → is_some (first (insert_sorted le x xs)) ≡ true
unfolding insert_sorted
first-insert_sorted le x [] = refl
first-insert_sorted le x (y ∷ ys) = elim (Bool-cases (le x y)) [
  | inl before ↦ rw before refl
  | inr behind ↦ rw behind refl
]

first-sort :
    {A : Type 0} (le : A → A → Bool) (P : A → Type 0) (xs : List A)
    → first (sort le xs) ≡ none
    → All P xs
unfolding sort
first-sort le P [] h = tt
first-sort le P (x ∷ xs) h = let there = first-insert_sorted le x (sort le xs) in cc (rw h at there)

none_recruits :
    {N : Type 0} (st : StoreState N) (round_id : ℕ) (cs : List (Condition N))
    → All (λ r. false ≡ true) (recruiting_conditions st round_id cs)
    → All (λ c. is_recruiting st round_id c ≡ false) cs
unfolding recruiting_conditions
none_recruits st round_id [] h = tt
none_recruits st round_id (c ∷ cs) h = elim (Bool-cases (is_recruiting st round_id c)) [
  | inl recruits ↦ let k = rw (recruits, recruiting_conditions) at h in cc k.0
  | inr closed ↦ (closed, none_recruits st round_id cs (rw (closed, recruiting_conditions) at h))
]

-- Without a wish a condition that recruits is assigned, or the study is reported as full, and then
-- no stored condition recruits in the round.
pub choose_condition-IsFull :
    {N : Type 0} (st : StoreState N) (round_id : ℕ)
    → ((c : Condition N) × (choose_condition st round_id none ≡ ok c)
        × Among c st.conditions
        × (is_recruiting st round_id c ≡ true))
      ⊎ ((choose_condition st round_id none
            ≡ failed (
                ServiceError.conflict
                  (text "Study is full — no active condition needs participants")))
          × All (λ c. is_recruiting st round_id c ≡ false) st.conditions)
unfolding choose_condition list_conditions
choose_condition-IsFull st round_id =
    elim (Option-cases
      (first (sort (claimed_le st round_id) (recruiting_conditions st round_id st.conditions)))) [
        | inl full ↦ inr (
          rw (full, choose_condition) refl,
          none_recruits st round_id st.conditions (
              first-sort (claimed_le st round_id) (λ r. false ≡ true)
                (recruiting_conditions st round_id st.conditions) full),
        )
        | inr (r, p) ↦
            let (there, recruits, fewest) = least-HasFewest st round_id r p in
            inl (r.condition, rw (p, choose_condition) refl, there, recruits)
      ]
