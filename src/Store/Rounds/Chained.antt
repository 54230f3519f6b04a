-- ===== src/Store/Rounds/Chained.antt =====
-- The rounds follow one another without a gap, and one is open.
use mathlib.Core.Path.{subst}
use Prim.Native.Nat.{ℕ, suc, ◌+◌}
use gdm_platform.Common.{
  Text, List, [], ◌∷◌, ◌++◌, Option, none, some, true, length, find, ◌≡◌, refl, arith, ap,
  Option-cases, inl, inr, sym, nat_eq, ◌⊎◌, Bool-cases, not, is_some, false, ◌≢◌, ◌∙◌,
}
use gdm_platform.Shared.Timestamp.{Timestamp, to_iso}
use gdm_platform.Shared.Models.{Condition}
use gdm_platform.Shared.Words.{trim}
use gdm_platform.Shared.Number.{Number}
use gdm_platform.Store.State.{RoundState, StoreState, open_round, seeded, seed_memory}
use gdm_platform.Store.Rounds.{
  opened, is_open, close_open, rename_round, current_round, start_new_round, update_round_label,
}

-- The rounds are numbered from `k` on, the first starts at `t`, each other one when the one before
-- it ended, and the last one is open.
abbrev pub Chained : ℕ → Timestamp → List RoundState → Type 0
Chained k t [] = ⊥
Chained k t (r ∷ rs) =
    (r.id ≡ k)
    × (r.started_at ≡ t)
    × elim r.ended_at [ none ↦ rs ≡ [] | some ended ↦ Chained (suc k) ended rs ]

-- What the rest of the rounds is, by whether the first has ended.
Chained-cases :
    {k : ℕ} {t : Timestamp} (r : RoundState) (rs : List RoundState)
    → Chained k t (r ∷ rs)
    → ((r.ended_at ≡ none) × (rs ≡ []))
      ⊎ ((ended : Timestamp) × (r.ended_at ≡ some ended) × Chained (suc k) ended rs)
Chained-cases {k = k} r rs h = after r.ended_at h.2
  where
    after :
        (o : Option Timestamp)
        → elim o as (λ _. Type 0) [ none ↦ rs ≡ [] | some ended ↦ Chained (suc k) ended rs ]
        → ((o ≡ none) × (rs ≡ []))
          ⊎ ((ended : Timestamp) × (o ≡ some ended) × Chained (suc k) ended rs)
    after none p = inl (refl, p)
    after (some ended) c = inr (ended, refl, c)

pub Chained-last :
    (k : ℕ) (r : RoundState) → r.id ≡ k → r.ended_at ≡ none → Chained k r.started_at (r ∷ [])
Chained-last k r i o = (
  i,
  refl,
  subst (λ e. elim e [ none ↦ ◌≡◌ {A = List RoundState} [] [] | some ended ↦ ⊥ ]) (sym o) refl,
)

Chained-cons :
    (k : ℕ) (ended : Timestamp) (r : RoundState) (rs : List RoundState)
    → r.id ≡ k
    → r.ended_at ≡ some ended
    → Chained (suc k) ended rs
    → Chained k r.started_at (r ∷ rs)
Chained-cons k ended r rs i o c =
    (i, refl, subst (λ e. elim e [ none ↦ rs ≡ [] | some t ↦ Chained (suc k) t rs ]) (sym o) c)

-- The open round is the last one.
open_of_Chained :
    (k : ℕ) (t : Timestamp) (rs : List RoundState)
    → Chained k t rs
    → (r : RoundState) × (find is_open rs ≡ some r) × (suc r.id ≡ k + length rs)
open_of_Chained k t [] h = absurd h
open_of_Chained k t (r ∷ rs) h = elim (Chained-cases r rs h) [
  | inl (o, e) ↦ (r, ground arith, ground (arith, h.0, ap length e))
  | inr (ended, o, c) ↦
      let (last, p, q) = open_of_Chained (suc k) ended rs c in (last, ground arith, ground arith)
]

snoc-Chained :
    (k : ℕ) (t : Timestamp) (rs : List RoundState) (label : Text) (now : ℕ)
    → Chained k t rs
    → Chained k t (close_open (to_iso now) rs ++ open_round (k + length rs) label now ∷ [])
snoc-Chained k t [] label now h = absurd h
snoc-Chained k t (r ∷ rs) label now h = elim (Chained-cases r rs h) [
  | inl (o, e) ↦
      let opened : is_open r ≡ true = ap (λ x. not (is_some x)) o in
      let next = open_round (k + suc (length rs)) label now in
      let last : Chained (suc k) (to_iso now) (next ∷ []) =
        Chained-last (suc k) next (omega (arith, ap length e)) refl in
      rw opened (
        subst (λ l. Chained k t (record r { ended_at = some (to_iso now) } ∷ l ++ next ∷ []))
          (sym e)
          (subst (λ u. Chained k u (record r { ended_at = some (to_iso now) } ∷ next ∷ [])) h.1
            (Chained-cons k (to_iso now) (record r { ended_at = some (to_iso now) }) (next ∷ []) h.0
              refl last)))
  | inr (ended, o, c) ↦
      let closed : is_open r ≡ false = ap (λ x. not (is_some x)) o in
      let rest = snoc-Chained (suc k) ended rs label now c in
      let shifted : suc k + length rs ≡ k + suc (length rs) = omega arith in
      rw closed (
        subst
          (λ u.
            Chained k u
              (r ∷ close_open (to_iso now) rs ++ open_round (k + suc (length rs)) label now ∷ []))
          h.1
          (Chained-cons k ended r
            (close_open (to_iso now) rs ++ open_round (k + suc (length rs)) label now ∷ []) h.0 o
            (rw shifted at rest)))
]

rename_round-Chained :
    (k : ℕ) (t : Timestamp) (id : ℕ) (label : Text) (rs : List RoundState)
    → Chained k t rs
    → Chained k t (rename_round id label rs)
rename_round-Chained k t id label [] h = h
rename_round-Chained k t id label (r ∷ rs) h = elim (Bool-cases (nat_eq r.id id)) [
  | inl hit ↦ rw hit h
  | inr miss ↦ rw miss (elim (Chained-cases r rs h) [
    | inl (o, e) ↦ subst (λ l. Chained k t (r ∷ l)) (e ∙ ap (rename_round id label) (sym e)) h
    | inr (ended, o, c) ↦
        subst (λ u. Chained k u (r ∷ rename_round id label rs)) h.1
          (Chained-cons k ended r (rename_round id label rs) h.0 o
            (rename_round-Chained (suc k) ended id label rs c))
  ])
]

module _ {N : Type 0} ⦃n : Number N⦄ where
  -- The rounds of a store are numbered from 1 on without a gap, and the last one is open.
  abbrev pub HasRounds : Timestamp → StoreState N → Type 0
  HasRounds t st = Chained 1 t st.memory_rounds

  -- The store has the conditions that its constructor put there.
  abbrev pub IsSeeded : StoreState N → Type 0
  IsSeeded st = st.conditions ≢ []

  seed_memory_idem : (st : StoreState N) (now : ℕ) → IsSeeded st → seed_memory st now ≡ st
  unfolding seed_memory
  seed_memory_idem st now h = go st.conditions refl
    where
      go : (cs : List (Condition N)) → st.conditions ≡ cs → seeded st.conditions st now ≡ st
      go [] e = absurd (h e)
      go (c ∷ cs) e = ap (λ l. seeded l st now) e

  -- A seeded store knows its open round, and asking for it changes nothing.
  pub current_round_of_HasRounds :
      (st : StoreState N) (t : Timestamp) (now : ℕ)
      → IsSeeded st
      → HasRounds t st
      → (r : RoundState) × (current_round st now ≡ (st, r))
        × (find is_open st.memory_rounds ≡ some r)
        × (r.id ≡ length st.memory_rounds)
  unfolding current_round
  current_round_of_HasRounds st t now s h =
      let (r, p, q) = open_of_Chained 1 t st.memory_rounds h in
      let same =
        ap (λ u. opened (find is_open u.memory_rounds) u now) (seed_memory_idem st now s) in
      (r, same ∙ ap (λ o. opened o st now) p, p, omega arith)

  pub start_new_round-HasRounds :
      (st : StoreState N) (t : Timestamp) (label : Text) (now : ℕ)
      → IsSeeded st
      → HasRounds t st
      → HasRounds t (start_new_round st label now).0
  unfolding start_new_round
  start_new_round-HasRounds st t label now s h =
      let (r, p, q, i) = current_round_of_HasRounds st t now s h in
      let next : r.id + 1 ≡ 1 + length st.memory_rounds = omega arith in
      let rounds : StoreState N × RoundState → List RoundState = λ x.
        close_open (to_iso now) x.0.memory_rounds
        ++ open_round (x.1.id + 1) (trim label) now ∷ [] in
      subst (λ x. Chained 1 t (rounds x)) (sym p)
        (rw next (snoc-Chained 1 t st.memory_rounds (trim label) now h))

  pub update_round_label-HasRounds :
      (st : StoreState N) (t : Timestamp) (id : ℕ) (label : Text)
      → HasRounds t st
      → HasRounds t (update_round_label st id label).0
  unfolding update_round_label
  update_round_label-HasRounds st t id label h =
      elim (Option-cases (find (λ r. nat_eq r.id id) st.memory_rounds)) [
        | inl unknown ↦ rw (unknown, update_round_label) h
        | inr (r, found) ↦
            rw (found, update_round_label)
              (rename_round-Chained 1 t id (trim label) st.memory_rounds h)
      ]
