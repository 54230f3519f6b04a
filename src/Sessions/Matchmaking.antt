-- ===== src/Sessions/Matchmaking.antt =====
-- sessions/sessions.service.ts: how a participant gets a seat, how a study round starts, and the
-- sweep of expired lobbies that comes first. These run one after the other (`queueMatchmaking`).
use Prim.Native.Nat.{ℕ}
use gdm_platform.Common.{
  Text, Text-eq, text, [], ◌∷◌, Option, none, some, Bool, true, false, ◌&&◌, ◌==◌, if◌then◌else◌,
  is_some, ◌++◌,
}
use gdm_platform.Shared.Interventions.{WorkspaceMode}
use gdm_platform.Shared.Number.{Number}
use gdm_platform.Shared.Models.{
  Session, Participant, ParticipantRecruitmentSource, Condition, ProlificIdentity,
}
use gdm_platform.Participation.State.{ParticipationState}
use gdm_platform.Participation.Actions.{link_prolific_arrival}
use gdm_platform.Store.State.{StoreState}
use gdm_platform.Store.Rounds.{is_aborted}
use gdm_platform.Store.Lookup.{
  TaskMode, find_by_tracking_token, find_by_prolific_session, find_forming,
}
use gdm_platform.Store.Seats.{add_participant, set_session}
use gdm_platform.Store.Lifecycle.{create_forming}
use gdm_platform.Sessions.State.{
  ServiceState, Environment, ServiceError, unknown_session, Result, ok, failed, Outcome, with_store,
  with_participation,
}
use gdm_platform.Sessions.Assignment.{assign_condition}
use gdm_platform.Sessions.Sweep.{sweep_expired_waiting_rooms}

pub record OpenSessionRequest : Type 0 where
  pub tracking_token : Text
  pub participant_name : Text
  pub prolific : Option ProlificIdentity
  pub condition_id : Option Text

-- The random values of one request: two identifiers and the choices of the shuffle.
pub record Randoms : Type 0 where
  pub participant_id : Text
  pub session_id : Text
  pub pick_index : ℕ → ℕ

pub record Seat (N : Type 0) : Type 0 where
  pub session : Session N
  pub participant : Participant N
  pub existing : Bool

-- `existing.participant.prolific?.participantId !== identity.participantId` is a conflict.
abbrev pub is_owner : ProlificIdentity → Option ProlificIdentity → Bool
is_owner identity none = false
is_owner identity (some p) = p.participant_id == identity.participant_id

abbrev pub source_of_request : Option ProlificIdentity → ParticipantRecruitmentSource
source_of_request none = ParticipantRecruitmentSource.direct
source_of_request (some _) = ParticipantRecruitmentSource.prolific

-- `if (req.prolific) await this.store.linkProlificArrival(req.prolific, id)`.
abbrev pub linked : Option ProlificIdentity → Text → ParticipationState → ParticipationState
linked none participant_id st = st
linked (some identity) participant_id st = link_prolific_arrival st identity participant_id

abbrev pub workspace_of : TaskMode → WorkspaceMode
workspace_of TaskMode.ranking = WorkspaceMode.ranking
workspace_of TaskMode.etherpad = WorkspaceMode.etherpad

module _ {N : Type 0} where
  -- The private `findByProlificSession` of the service.
  unfoldable pub find_own_session :
      StoreState N → ProlificIdentity → Result (Option (Session N × Participant N))
  unfolding find_by_prolific_session
  find_own_session st identity = elim (find_by_prolific_session st identity) [
    | none ↦ ok none
    | some (session, participant) ↦
        if is_owner identity participant.prolific
        then ok (some (session, participant))
        else failed (
            ServiceError.conflict
              (text "This Prolific submission belongs to a different participant"))
  ]

  unfoldable pub find_existing :
      StoreState N → OpenSessionRequest → Result (Option (Session N × Participant N))
  unfolding find_own_session find_by_tracking_token
  find_existing st req = elim req.prolific [
    | none ↦ ok (find_by_tracking_token st req.tracking_token)
    | some identity ↦ find_own_session st identity
  ]

  -- `{ ...condition, config: { ...condition.config, workspaceMode: taskMode } }`.
  abbrev pub with_task_mode : Option TaskMode → Condition N → Condition N
  with_task_mode none condition = condition
  with_task_mode (some mode) condition = record condition {
    config = record condition.config { workspace_mode = workspace_of mode };
  }

module _ {N : Type 0} where
  unfoldable pub rejoin :
      OpenSessionRequest → ServiceState N → Session N → Participant N → Outcome N (Seat N)
  rejoin req st session participant =
      if is_aborted session.status && is_some req.prolific
      then (st, failed (ServiceError.conflict (text "This waiting attempt has ended")))
      else (
        with_participation st (linked req.prolific participant.id st.participation),
        ok (record { session = session; participant = participant; existing = true }),
      )

module _ {N : Type 0} (req : OpenSessionRequest) (randoms : Randoms) where
  unfoldable pub new_participant : Participant N
  new_participant = record {
    id = randoms.participant_id;
    name = req.participant_name;
    tracking_token = req.tracking_token;
    recruitment_source = source_of_request req.prolific;
    prolific = req.prolific;
    completed_at = none;
    matrix_user_id = none;
    entry_survey = none;
    exit_survey = none;
  }

  -- `session.participants.push(participant)` on the stored session, then `addParticipant`.
  unfoldable pub take_seat : ServiceState N → Session N → Outcome N (Seat N)
  unfolding new_participant add_participant
  take_seat st session =
      let seated = record session { participants = session.participants ++ new_participant ∷ [] } in
      elim (add_participant (set_session st.store session.id seated) session.id new_participant) [
        | none ↦ (with_store st (set_session st.store session.id seated), failed unknown_session)
        | some store ↦ (
          record {
            store = store;
            participation = linked req.prolific randoms.participant_id st.participation;
          },
          ok (record { session = seated; participant = new_participant; existing = false }),
        )
      ]

module _ (env : Environment) {N : Type 0} ⦃n : Number N⦄ (req : OpenSessionRequest)
    (randoms : Randoms) (now : ℕ) where
  -- A new session for the condition that was assigned.
  unfoldable pub open_seat :
      Option TaskMode → ServiceState N → StoreState N × Result (Condition N) → Outcome N (Seat N)
  unfolding create_forming take_seat
  open_seat task_mode st (store, failed e) = (with_store st store, failed e)
  open_seat task_mode st (store, ok condition) =
      let (store', session) =
        create_forming store env.waiting_timeout_minutes randoms.session_id randoms.pick_index
          (with_task_mode task_mode condition) now in
      take_seat req randoms (with_store st store') session

  unfoldable pub seat_in_group : Option TaskMode → ServiceState N → Outcome N (Seat N)
  unfolding open_seat find_forming assign_condition take_seat
  seat_in_group task_mode st =
      let (store, forming) = find_forming st.store req.condition_id task_mode now in
      elim forming [
        | some session ↦ take_seat req randoms (with_store st store) session
        | none ↦
            open_seat task_mode (with_store st store) (assign_condition store req.condition_id now)
      ]

  -- `task_mode` is what the Etherpad service answers for the token.
  unfoldable pub reserve_seat : Option TaskMode → ServiceState N → Outcome N (Seat N)
  unfolding sweep_expired_waiting_rooms find_existing seat_in_group rejoin
  reserve_seat task_mode st =
      let swept = (sweep_expired_waiting_rooms env st now).0 in
      elim (find_existing swept.store req) [
        | failed e ↦ (swept, failed e)
        | ok none ↦ seat_in_group task_mode swept
        | ok (some (session, participant)) ↦ rejoin req swept session participant
      ]
