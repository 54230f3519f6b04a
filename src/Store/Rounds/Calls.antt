-- ===== src/Store/Rounds/Calls.antt =====
-- Any sequence of the operations on rounds.
use Prim.Native.Nat.{ℕ}
use mathlib.Core.Path.{subst}
use gdm_platform.Common.{
  Text, List, [], ◌∷◌, ◌≡◌, refl, sym, ap, ◌∙◌, find, nat_eq, Option-cases, inl, inr,
}
use gdm_platform.Shared.Timestamp.{to_iso}
use gdm_platform.Shared.Number.{Number}
use gdm_platform.Store.Conditions.{seed_conditions}
use gdm_platform.Store.State.{StoreState, RoundState, open_round, new_store}
use gdm_platform.Store.Rounds.{current_round, start_new_round, update_round_label}
use gdm_platform.Store.Rounds.Chained.{
  Chained, HasRounds, IsSeeded, Chained-last, current_round_of_HasRounds, start_new_round-HasRounds,
  update_round_label-HasRounds,
}

pub data RoundCall : Type 0 where
  asks : RoundCall
  starts : (label : Text) → RoundCall
  renames : (id : ℕ) → (label : Text) → RoundCall

module _ {N : Type 0} ⦃n : Number N⦄ where
  unfoldable pub call_round : StoreState N → ℕ → RoundCall → StoreState N
  call_round st now asks = (current_round st now).0
  call_round st now (starts label) = (start_new_round st label now).0
  call_round st now (renames id label) = (update_round_label st id label).0

  unfoldable pub call_rounds : StoreState N → List (ℕ × RoundCall) → StoreState N
  call_rounds st [] = st
  call_rounds st ((now, call) ∷ calls) = call_rounds (call_round st now call) calls

  call_round-conditions :
      (st : StoreState N) (now t : ℕ) (call : RoundCall)
      → IsSeeded st
      → HasRounds (to_iso t) st
      → (call_round st now call).conditions ≡ st.conditions
  unfolding call_round start_new_round update_round_label
  call_round-conditions st now t asks s h =
      let (r, p, _, _) = current_round_of_HasRounds st (to_iso t) now s h in
      ap (λ (x : StoreState N × RoundState). x.0.conditions) p
  call_round-conditions st now t (starts label) s h =
      let (r, p, _, _) = current_round_of_HasRounds st (to_iso t) now s h in
      ap (λ (x : StoreState N × RoundState). x.0.conditions) p
  call_round-conditions st now t (renames id label) s h =
      elim (Option-cases (find (λ r. nat_eq r.id id) st.memory_rounds)) [
        | inl unknown ↦ rw (unknown, call_round, update_round_label) refl
        | inr (r, found) ↦ rw (found, call_round, update_round_label) refl
      ]

  call_round-HasRounds :
      (st : StoreState N) (now t : ℕ) (call : RoundCall)
      → IsSeeded st
      → HasRounds (to_iso t) st
      → HasRounds (to_iso t) (call_round st now call)
  unfolding call_round
  call_round-HasRounds st now t asks s h =
      let (r, p, _, _) = current_round_of_HasRounds st (to_iso t) now s h in
      subst (λ (x : StoreState N × RoundState). HasRounds (to_iso t) x.0) (sym p) h
  call_round-HasRounds st now t (starts label) s h =
      start_new_round-HasRounds st (to_iso t) label now s h
  call_round-HasRounds st now t (renames id label) s h =
      update_round_label-HasRounds st (to_iso t) id label h

  call_rounds-HasRounds :
      (st : StoreState N) (t : ℕ) (calls : List (ℕ × RoundCall))
      → IsSeeded st
      → HasRounds (to_iso t) st
      → HasRounds (to_iso t) (call_rounds st calls)
  unfolding call_rounds
  call_rounds-HasRounds st t [] s h = h
  call_rounds-HasRounds st t ((now, call) ∷ calls) s h =
      call_rounds-HasRounds (call_round st now call) t calls
        (λ e. s (sym (call_round-conditions st now t call s h) ∙ e))
        (call_round-HasRounds st now t call s h)

-- Whatever is asked, started or renamed after a store is made, its rounds are numbered 1, 2, 3, …
-- without a gap, the first starts when the store was made, each other one at the moment when the one
-- before it ended, and the last one, and it alone, is open.
pub call_rounds-Chained :
    (N : Type 0) ⦃n : Number N⦄ (made : ℕ) (calls : List (ℕ × RoundCall))
    → Chained 1 (to_iso made) (call_rounds (new_store {N = N} made) calls).memory_rounds
unfolding new_store seed_conditions
call_rounds-Chained N made calls =
    call_rounds-HasRounds (new_store {N = N} made) made calls (λ e. cc (e))
      (Chained-last 1 (open_round 1 [] made) refl refl)
