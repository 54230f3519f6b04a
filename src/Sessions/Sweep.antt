-- ===== src/Sessions/Sweep.antt =====
-- sessions/sessions.service.ts: the end of the lobbies that expire or that a new round closes, with
-- the outcomes of their participants.
pub mod Ended
pub mod Settled
use Prim.Native.Nat.{ℕ}
use gdm_platform.Common.{
  Text, Text-eq, text, List, [], ◌∷◌, map, Option, none, some, Bool, true, false, ◌&&◌, not, ◌==◌,
  if◌then◌else◌, ltb, leb, nat_eq, length, keep, sort, is_some, or_else, ◌++◌,
}
use gdm_platform.Shared.Timestamp.{Timestamp}
use gdm_platform.Shared.Interventions.{WorkspaceMode}
use gdm_platform.Shared.Words.{is_test_condition}
use gdm_platform.Shared.Number.{Number}
use gdm_platform.Shared.Models.{
  Session, Participant, ParticipantRecruitmentSource, Condition, ProlificIdentity, ProlificArrival,
}
use gdm_platform.Participation.Compensation.{partial_payment_pence}
use gdm_platform.Participation.Endings.{TerminationCompensation, EndedOutcome}
use gdm_platform.Participation.Rules.{Termination}
use gdm_platform.Participation.State.{ParticipationState, get_prolific_arrival}
use gdm_platform.Participation.Store.{terminate_prolific_participation}
use gdm_platform.Participation.Actions.{link_prolific_arrival}
use gdm_platform.Store.State.{StoreState, RoundState}
use gdm_platform.Store.Rounds.{is_aborted, current_round, start_new_round, claimed_count}
use gdm_platform.Store.Lookup.{
  TaskMode, first, is_empty_text, find_by_tracking_token, find_by_prolific_session, find_forming,
  get_condition, get_session,
}
use gdm_platform.Store.Seats.{add_participant, with_participant}
use gdm_platform.Store.Lifecycle.{
  Aborting, all_waiting, expired, AbortedLobby, LobbyStatus, abort_lobbies, create_forming,
}
use gdm_platform.Store.Settings.{list_conditions}
use gdm_platform.Sessions.State.{
  ServiceState, Environment, ServiceError, Result, ok, failed, Outcome, with_store,
  with_participation,
}

-- Arrivals and sessions are dated by `toISOString`, so that their times are there.
abbrev pub started_ms : Timestamp → ℕ
started_ms t = or_else t.time 0

-- `arrival?.arrivedAt ?? session.createdAt`.
abbrev pub payment_start : Option ProlificArrival → Timestamp → Timestamp
payment_start none created_at = created_at
payment_start (some arrival) created_at = arrival.arrived_at

abbrev pub has_outcome : Option ProlificArrival → Bool
has_outcome none = false
has_outcome (some arrival) = is_some arrival.outcome

abbrev pub lobby_outcome : LobbyStatus → EndedOutcome
lobby_outcome LobbyStatus.provisioning = EndedOutcome.technical_failure
lobby_outcome LobbyStatus.waiting = EndedOutcome.unmatched

abbrev pub lobby_reason : LobbyStatus → Text
lobby_reason LobbyStatus.provisioning =
    text "The complete group could not enter the chat because room provisioning did not "
    ++ text "finish before the deadline."
lobby_reason LobbyStatus.waiting =
    text "The required live group did not form before the waiting deadline."

abbrev pub round_reason : Text
round_reason = text "The waiting lobby closed when the researcher started a new round."

module _ (env : Environment) where
  -- The ending of one participant, with the time since the arrival paid in part.
  unfoldable pub closing :
      Timestamp → EndedOutcome → Text → ℕ → Option ProlificArrival → Termination
  unfolding partial_payment_pence
  closing created_at outcome reason now arrival = record {
    outcome = outcome;
    reason = reason;
    compensation_kind = TerminationCompensation.partial;
    compensation_amount_pence = some (
        partial_payment_pence env.partial_payment_pence_per_minute env.partial_payment_max_pence
          (started_ms (payment_start arrival created_at)) now);
  }

  -- One participant of a session that ends: who has no outcome yet gets one.
  unfoldable pub terminate_participant :
      Timestamp
      → EndedOutcome
      → Text
      → ℕ
      → Option ProlificIdentity
      → ParticipationState
      → ParticipationState
  unfolding get_prolific_arrival terminate_prolific_participation closing
  terminate_participant created_at outcome reason now none st = st
  terminate_participant created_at outcome reason now (some identity) st =
      let arrival = get_prolific_arrival st identity in
      if has_outcome arrival
      then st
      else (terminate_prolific_participation st identity
          (closing created_at outcome reason now arrival) now).0

module _ (env : Environment) {N : Type 0} where
  unfoldable pub terminate_each :
      Timestamp
      → EndedOutcome
      → Text
      → ℕ
      → List (Participant N)
      → ParticipationState
      → ParticipationState
  unfolding terminate_participant
  terminate_each created_at outcome reason now [] st = st
  terminate_each created_at outcome reason now (p ∷ ps) st =
      terminate_each created_at outcome reason now ps
        (terminate_participant env created_at outcome reason now p.prolific st)

  -- The callers pass the id of a session that is there.
  unfoldable pub terminate_session_participants :
      ServiceState N → Text → EndedOutcome → Text → ℕ → ServiceState N
  unfolding get_session terminate_each
  terminate_session_participants st session_id outcome reason now =
      elim (get_session st.store session_id) [
        | none ↦ st
        | some session ↦ with_participation st (
            terminate_each session.created_at outcome reason now session.participants
              st.participation)
      ]

  unfoldable pub terminate_expired : ℕ → List AbortedLobby → ServiceState N → ServiceState N
  unfolding terminate_session_participants
  terminate_expired now [] st = st
  terminate_expired now (lobby ∷ lobbies) st = terminate_expired now lobbies (
      terminate_session_participants st lobby.id (lobby_outcome lobby.prior_status)
        (lobby_reason lobby.prior_status) now)

  unfoldable pub sweep_expired_waiting_rooms : ServiceState N → ℕ → ServiceState N × ℕ
  unfolding abort_lobbies terminate_expired
  sweep_expired_waiting_rooms st now =
      let (store, lobbies) = abort_lobbies st.store (expired now) in
      (terminate_expired now lobbies (with_store st store), length lobbies)

  unfoldable pub terminate_closed : ℕ → List AbortedLobby → ServiceState N → ServiceState N
  unfolding terminate_session_participants
  terminate_closed now [] st = st
  terminate_closed now (lobby ∷ lobbies) st =
      terminate_closed now lobbies
        (terminate_session_participants st lobby.id EndedOutcome.group_aborted round_reason now)

module _ (env : Environment) {N : Type 0} ⦃n : Number N⦄ where
  -- The round that was started, and how many lobbies it closed.
  unfoldable pub do_start_round : ServiceState N → Text → ℕ → ServiceState N × RoundState × ℕ
  unfolding abort_lobbies terminate_closed start_new_round
  do_start_round st label now =
      let (store, lobbies) = abort_lobbies st.store all_waiting in
      let closed = terminate_closed env now lobbies (with_store st store) in
      let (store', round) = start_new_round closed.store label now in
      (with_store closed store', round, length lobbies)
