-- ===== src/Sessions/Run.antt =====
-- The life of the Session Manager: any sequence of its operations, each at its own time.
pub mod Closed
pub mod Matched
pub mod Ended
pub mod Swept
pub mod Finished
pub mod Opened
pub mod Life
use Prim.Native.Nat.{ℕ}
use gdm_platform.Common.{Text, Text-eq, List, [], ◌∷◌, Option, none, get, ◌≡◌}
use gdm_platform.Shared.Number.{Number}
use gdm_platform.Shared.Models.{ProlificIdentity, Participant, Survey, Session}
use gdm_platform.Shared.Dto.{CheckpointSessionRequest}
use gdm_platform.Participation.Compensation.{SelfOutcome}
use gdm_platform.Participation.State.{Milestone, record_participation_stage}
use gdm_platform.Store.State.{StoreState, MatrixCreds}
use gdm_platform.Store.Lookup.{TaskMode}
use gdm_platform.Store.Seats.{SurveyKind, save_participant_survey}
use gdm_platform.Sessions.State.{ServiceState, Environment, with_store, with_participation}
use gdm_platform.Sessions.Sweep.{sweep_expired_waiting_rooms, do_start_round}
use gdm_platform.Sessions.Matchmaking.{OpenSessionRequest, Randoms, reserve_seat}
use gdm_platform.Sessions.Leaving.{terminate_participation}
use gdm_platform.Sessions.Disconnection.{sweep_disconnected_participants}
use gdm_platform.Sessions.Completion.{
  complete_session, complete_participant, checkpoint_session, finalize_session,
  submit_debrief_feedback,
}
use gdm_platform.Sessions.Provisioning.{Answers, ensure_provisioned, ensure_participant_access}

pub data Event (N : Type 0) : Type 0 where
  reaches : ProlificIdentity → Milestone → Event N
  joins : OpenSessionRequest → Randoms → Option TaskMode → Event N
  starts_round : (label : Text) → Event N
  leaves : ProlificIdentity → SelfOutcome → (reason : Text) → Event N
  sweeps_lobbies sweeps_disconnected : Event N
  registers : Participant N → Option MatrixCreds → Event N
  provisions : (id : Text) → Answers N → Event N
  completes : (id : Text) → Event N
  completes_participant : (session_id participant_id : Text) → Event N
  surveys : (session_id participant_id : Text) → SurveyKind → Survey N → Event N
  gives_feedback : (session_id participant_id feedback : Text) → Event N
  checkpoints finalizes : (id : Text) → CheckpointSessionRequest N → Event N

module _ (env : Environment) {N : Type 0} ⦃n : Number N⦄ where
  unfoldable pub step : ServiceState N → ℕ → Event N → ServiceState N
  step st now (reaches identity milestone) =
      with_participation st (record_participation_stage st.participation identity milestone now).0
  step st now (joins req randoms task_mode) = (reserve_seat env req randoms now task_mode st).0
  step st now (starts_round label) = (do_start_round env st label now).0
  step st now (leaves identity outcome reason) =
      (terminate_participation env st identity outcome reason now).0.state
  step st now sweeps_lobbies = (sweep_expired_waiting_rooms env st now).0
  step st now sweeps_disconnected = (sweep_disconnected_participants env st now).0.state
  step st now (registers participant creds) =
      with_store st (ensure_participant_access st.store participant creds).0
  step st now (provisions id answers) = with_store st (ensure_provisioned answers st.store id now).0
  step st now (completes id) = (complete_session st id now).0
  step st now (completes_participant session_id participant_id) =
      (complete_participant st session_id participant_id now).0
  step st now (surveys session_id participant_id kind survey) =
      with_store st (save_participant_survey st.store session_id participant_id kind survey).0
  step st now (gives_feedback session_id participant_id feedback) =
      (submit_debrief_feedback st session_id participant_id feedback).0
  step st now (checkpoints id checkpoint) = (checkpoint_session st id checkpoint).0
  step st now (finalizes id checkpoint) = (finalize_session st id checkpoint now).0

  unfoldable pub run : ServiceState N → List (ℕ × Event N) → ServiceState N
  run st [] = st
  run st ((now, event) ∷ events) = run (step st now event) events

  -- A random identifier is not that of a session that is there.
  abbrev pub IsFresh : ServiceState N → Event N → Type 0
  IsFresh st (joins req randoms task_mode) = get randoms.session_id st.store.sessions ≡ none
  IsFresh st _ = Unit

  abbrev pub AllFresh : ServiceState N → List (ℕ × Event N) → Type 0
  AllFresh st [] = Unit
  AllFresh st ((now, event) ∷ events) = IsFresh st event × AllFresh (step st now event) events
