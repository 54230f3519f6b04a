-- ===== src/Sessions/Leaving.antt =====
-- sessions/sessions.service.ts: participants who leave. An error of a kick is only logged; the
-- kicks are collected in their order.
use Prim.Native.Nat.{ℕ}
use gdm_platform.Common.{Text, text, List, [], ◌∷◌, ◌++◌, Option, none, some, Bool, true, false}
use gdm_platform.Shared.Models.{
  Session, SessionStatus, Participant, ProlificIdentity, ProlificArrival,
  ParticipationOutcomeRecord,
}
use gdm_platform.Participation.Compensation.{SelfOutcome, self_termination_compensation_kind}
use gdm_platform.Participation.Endings.{EndedOutcome, outcome_of}
use gdm_platform.Participation.Rules.{Termination}
use gdm_platform.Participation.Outcomes.{
  ParticipationOutcomeResponse, or_text, default_outcome_reason, to_outcome_response,
}
use gdm_platform.Participation.State.{record_prolific_arrival}
use gdm_platform.Participation.Store.{terminate_prolific_participation}
use gdm_platform.Store.Seats.{remove_participant_from_waiting_session}
use gdm_platform.Store.Lifecycle.{LifecyclePatch, update_session_lifecycle}
use gdm_platform.Store.Settings.{get_study_settings}
use gdm_platform.Sessions.State.{
  ServiceState, Environment, Result, ok, failed, with_store, with_participation,
}
use gdm_platform.Sessions.Sweep.{terminate_session_participants}
use gdm_platform.Sessions.Matchmaking.{find_own_session}

pub record Kick : Type 0 where
  pub room_id : Text
  pub user_id : Text

-- `if (roomId && matrixUserId)`.
abbrev pub kick_of : Option Text → Option Text → List Kick
kick_of (some (r ∷ room)) (some (u ∷ user)) = record { room_id = r ∷ room; user_id = u ∷ user } ∷ []
kick_of _ _ = []

abbrev pub aborted_patch : LifecyclePatch
aborted_patch = record {
  status = some SessionStatus.aborted;
  room_id = none;
  started_at = none;
  completed_at = none;
}

abbrev pub ended_of : SelfOutcome → EndedOutcome
ended_of SelfOutcome.declined_consent = EndedOutcome.declined_consent
ended_of SelfOutcome.ineligible = EndedOutcome.ineligible
ended_of SelfOutcome.voluntary_withdrawal = EndedOutcome.voluntary_withdrawal

-- `for (const participant of participants) if (participant.matrixUserId) kick(room, …)`.
abbrev pub kicks_of : {N : Type 0} → Option Text → List (Participant N) → List Kick
kicks_of room_id [] = []
kicks_of room_id (p ∷ ps) = kick_of room_id p.matrix_user_id ++ kicks_of room_id ps

-- What `leaveSession` leaves behind, the members it kicked, and whether it aborted the group.
pub record Departure (N : Type 0) : Type 0 where
  pub state : ServiceState N
  pub kicks : List Kick
  pub aborted : Bool

abbrev pub left_reason : Text
left_reason = text "The live group could not continue after a participant left."

unfoldable pub self_termination : SelfOutcome → Text → ProlificArrival → Termination
unfolding self_termination_compensation_kind default_outcome_reason
self_termination outcome reason arrival = record {
  outcome = ended_of outcome;
  reason = or_text reason (default_outcome_reason (outcome_of (ended_of outcome)));
  compensation_kind = self_termination_compensation_kind outcome arrival.stage;
  compensation_amount_pence = none;
}

module _ (env : Environment) {N : Type 0} where
  unfoldable pub leave_session : ServiceState N → Session N → Participant N → Text → ℕ → Departure N
  unfolding remove_participant_from_waiting_session update_session_lifecycle
      terminate_session_participants
  leave_session st session participant dropout_reason now = elim session.status [
    | SessionStatus.waiting ↦ record {
      state =
          with_store st
            (remove_participant_from_waiting_session st.store session.id participant.id).0;
      kicks = [];
      aborted = false;
    }
    | SessionStatus.running ↦ record {
      state = st;
      kicks = kick_of session.room_id participant.matrix_user_id;
      aborted = false;
    }
    | SessionStatus.provisioning ↦
        elim (update_session_lifecycle st.store session.id aborted_patch) [
          | none ↦ record { state = st; kicks = []; aborted = false }
          | some store ↦ record {
            state =
                terminate_session_participants env (with_store st store) session.id
                  EndedOutcome.participant_dropout dropout_reason now;
            kicks = [];
            aborted = true;
          }
        ]
    | _ ↦ record { state = st; kicks = []; aborted = false }
  ]

  abbrev pub leave_if_seated :
      Option (Session N × Participant N) → Text → ℕ → ServiceState N → Departure N
  leave_if_seated none reason now st = record { state = st; kicks = []; aborted = false }
  leave_if_seated (some (session, participant)) reason now st =
      leave_session st session participant reason now

  -- After `validateProlificIdentity`.
  unfoldable pub terminate_participation :
      ServiceState N
      → ProlificIdentity
      → SelfOutcome
      → Text
      → ℕ
      → Departure N × Result (Option ParticipationOutcomeResponse)
  unfolding record_prolific_arrival find_own_session self_termination leave_session
      terminate_prolific_participation to_outcome_response
  terminate_participation st identity outcome reason now =
      let (recorded, arrival) = record_prolific_arrival st.participation identity now in
      elim (find_own_session st.store identity) [
        | failed e ↦ (
          record { state = with_participation st recorded; kicks = []; aborted = false },
          failed e,
        )
        | ok existing ↦
            let (ended, row) =
              terminate_prolific_participation recorded identity
                (self_termination outcome reason arrival) now in
            (
              leave_if_seated existing left_reason now (with_participation st ended),
              ok (respond row),
            )
      ]
    where
      respond : Option ParticipationOutcomeRecord → Option ParticipationOutcomeResponse
      respond none = none
      respond (some row) = to_outcome_response row (get_study_settings st.store)
