-- ===== src/Sessions/Run/Closed.antt =====
-- The sessions under the sweeps of expired lobbies and under the switch of rounds.
use mathlib.Core.Path.{subst}
use Prim.Native.Nat.{ℕ}
use gdm_platform.Common.{Text, Text-eq, List, [], ◌∷◌, Option, none, some, ◌≡◌, refl, sym, ap, ◌∙◌}
use gdm_platform.Shared.Number.{Number}
use gdm_platform.Shared.Models.{Condition}
use gdm_platform.Participation.Endings.{EndedOutcome}
use gdm_platform.Store.State.{StoreState, RoundState, seeded, seed_memory}
use gdm_platform.Store.Rounds.{opened, current_round, start_new_round}
use gdm_platform.Store.Lifecycle.{AbortedLobby, all_waiting, expired, abort_lobbies}
use gdm_platform.Store.Life.Growth.{IsFiled, Grown}
use gdm_platform.Store.Life.Operations.{abort_lobbies-Grown}
use gdm_platform.Sessions.State.{ServiceState, Environment, with_store}
use gdm_platform.Sessions.Sweep.Ended.{terminate_session-Grows, terminate_expired-Grows}
use gdm_platform.Sessions.Sweep.{
  round_reason, terminate_session_participants, terminate_closed, sweep_expired_waiting_rooms,
  do_start_round,
}

module _ {N : Type 0} ⦃n : Number N⦄ where
  seeded-sessions :
      (cs : List (Condition N)) (st : StoreState N) (now : ℕ)
      → (seeded cs st now).sessions ≡ st.sessions
  seeded-sessions [] st now = refl
  seeded-sessions (c ∷ cs) st now = refl

  opened-sessions :
      (o : Option RoundState) (st : StoreState N) (now : ℕ)
      → (opened o st now).0.sessions ≡ st.sessions
  opened-sessions none st now = refl
  opened-sessions (some r) st now = refl

  -- The rounds are kept apart from the sessions.
  pub current_round-sessions :
      (st : StoreState N) (now : ℕ) → (current_round st now).0.sessions ≡ st.sessions
  unfolding current_round seed_memory
  current_round-sessions st now =
      opened-sessions _ (seeded st.conditions st now) now ∙ seeded-sessions st.conditions st now

  pub start_new_round-sessions :
      (st : StoreState N) (label : Text) (now : ℕ)
      → (start_new_round st label now).0.sessions ≡ st.sessions
  unfolding start_new_round
  start_new_round-sessions st label now = current_round-sessions st now

module _ (env : Environment) {N : Type 0} where
  -- The outcomes of participants leave the sessions alone.
  pub terminate-store :
      (st : ServiceState N) (session_id : Text) (outcome : EndedOutcome) (reason : Text) (now : ℕ)
      → (terminate_session_participants env st session_id outcome reason now).store ≡ st.store
  terminate-store st session_id outcome reason now =
      (terminate_session-Grows env st session_id outcome reason now).0

  terminate_closed-store :
      (now : ℕ) (lobbies : List AbortedLobby) (st : ServiceState N)
      → (terminate_closed env now lobbies st).store ≡ st.store
  unfolding terminate_closed
  terminate_closed-store now [] st = refl
  terminate_closed-store now (l ∷ ls) st =
      terminate_closed-store now ls
        (terminate_session_participants env st l.id EndedOutcome.group_aborted round_reason now)
      ∙ terminate-store st l.id EndedOutcome.group_aborted round_reason now

  pub sweep-store :
      (st : ServiceState N) (now : ℕ)
      → (sweep_expired_waiting_rooms env st now).0.store ≡ (abort_lobbies st.store (expired now)).0
  unfolding sweep_expired_waiting_rooms
  sweep-store st now =
      (terminate_expired-Grows env now (abort_lobbies st.store (expired now)).1
        (with_store st (abort_lobbies st.store (expired now)).0)).0

  pub sweep-Grown :
      (st : ServiceState N) (now : ℕ)
      → IsFiled st.store.sessions
      → Grown st.store.sessions (sweep_expired_waiting_rooms env st now).0.store.sessions
  sweep-Grown st now w =
      subst (λ (x : StoreState N). Grown st.store.sessions x.sessions) (sym (sweep-store st now))
        (abort_lobbies-Grown st.store (expired now) w)

module _ (env : Environment) {N : Type 0} ⦃n : Number N⦄ where
  pub do_start_round-Grown :
      (st : ServiceState N) (label : Text) (now : ℕ)
      → IsFiled st.store.sessions
      → Grown st.store.sessions (do_start_round env st label now).0.store.sessions
  unfolding do_start_round
  do_start_round-Grown st label now w =
      let aborted = abort_lobbies st.store all_waiting in
      let closed = terminate_closed env now aborted.1 (with_store st aborted.0) in
      let kept : closed.store ≡ aborted.0 =
        terminate_closed-store env now aborted.1 (with_store st aborted.0) in
      subst (Grown st.store.sessions)
        (sym (
          start_new_round-sessions closed.store label now
          ∙ ap (λ (x : StoreState N). x.sessions) kept))
        (abort_lobbies-Grown st.store all_waiting w)
