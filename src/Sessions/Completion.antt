-- ===== src/Sessions/Completion.antt =====
-- sessions/sessions.service.ts: the end of a session and of a participant, the checkpoints that the
-- Chat Service sends, the debriefing feedback and the recovery of running sessions.
pub mod Due
use Prim.Native.Nat.{ℕ}
use gdm_platform.Common.{
  Text, Text-eq, text, List, [], ◌∷◌, ◌++◌, Option, none, some, Bool, true, false, if◌then◌else◌,
  find, is_some, first_some, map,
}
use gdm_platform.Shared.Timestamp.{Timestamp, to_iso}
use gdm_platform.Shared.Models.{
  Session, SessionStatus, Participant, ParticipantRecruitmentSource, ParticipationOutcome,
  ProlificIdentity, ParticipationOutcomeRecord, Answer, Condition,
}
use gdm_platform.Shared.Dto.{CheckpointSessionRequest, RuntimeCheckpoint}
use gdm_platform.Checkpoint.Merge.{checkpoint_from_session}
use gdm_platform.Participation.State.{ParticipationState}
use gdm_platform.Participation.Store.{get_participation_outcome, complete_prolific_participation}
use gdm_platform.Store.State.{StoreState}
use gdm_platform.Store.Rounds.{is_aborted}
use gdm_platform.Store.Lookup.{get_session, running_sessions}
use gdm_platform.Store.Seats.{has_id, mark_participant_completed, patch_exit_survey_answers}
use gdm_platform.Store.Lifecycle.{LifecyclePatch, update_session_lifecycle, save_runtime_checkpoint}
use gdm_platform.Store.Settings.{get_study_settings}
use gdm_platform.Sessions.State.{
  ServiceState, ServiceError, unknown_session, Result, ok, failed, Outcome, with_store,
}

pub record CompleteParticipantResponse : Type 0 where
  pub completed_at : Option Timestamp
  pub compensation_url : Text
  pub recruitment_source : ParticipantRecruitmentSource

-- What the Chat Service is sent to take over a running session again.
pub record StartSessionNotification (N : Type 0) : Type 0 where
  pub session_id : Text
  pub room_id : Option Text
  pub condition : Condition N
  pub duration_minutes : ℕ
  pub started_at : Option Timestamp
  pub participant_user_ids : List Text
  pub checkpoint : Option (RuntimeCheckpoint N)

abbrev pub completed_patch : ℕ → LifecyclePatch
completed_patch now = record {
  status = some SessionStatus.completed;
  room_id = none;
  started_at = none;
  completed_at = some (to_iso now);
}

-- `status !== "completed" && status !== "aborted"` fails.
abbrev pub is_over : SessionStatus → Bool
is_over SessionStatus.completed = true
is_over SessionStatus.aborted = true
is_over _ = false

abbrev pub unknown : Text → ServiceError
unknown id = ServiceError.not_found (text "Unknown session " ++ id)

-- `outcome?.outcome && outcome.outcome !== "completed"`.
abbrev pub ended_otherwise : Option ParticipationOutcomeRecord → Bool
ended_otherwise none = false
ended_otherwise (some row) = elim row.outcome [
  | none ↦ false
  | some ParticipationOutcome.completed ↦ false
  | some _ ↦ true
]

abbrev pub has_ended : ParticipationState → Option ProlificIdentity → Bool
has_ended st none = false
has_ended st (some identity) = ended_otherwise (get_participation_outcome st identity)

abbrev completed_participation :
    Option ProlificIdentity → ℕ → ParticipationState → ParticipationState
completed_participation none now st = st
completed_participation (some identity) now st = (complete_prolific_participation st identity now).0

abbrev url_for : Option ProlificIdentity → Text → Text
url_for none url = []
url_for (some _) url = url

-- `participants.flatMap((p) => p.matrixUserId ? [p.matrixUserId] : [])`.
abbrev pub user_ids : {N : Type 0} → List (Participant N) → List Text
user_ids [] = []
user_ids (p ∷ ps) = elim p.matrix_user_id [
  | some (u ∷ user) ↦ (u ∷ user) ∷ user_ids ps
  | _ ↦ user_ids ps
]

module _ {N : Type 0} where
  abbrev pub after_update : ServiceState N → Text → Option (StoreState N) → Outcome N (Session N)
  after_update st id none = (st, failed unknown_session)
  after_update st id (some store) = elim (get_session store id) [
    | none ↦ (with_store st store, failed (unknown id))
    | some session ↦ (with_store st store, ok session)
  ]

  unfoldable pub complete_session : ServiceState N → Text → ℕ → Outcome N (Session N)
  unfolding get_session update_session_lifecycle
  complete_session st id now = elim (get_session st.store id) [
    | none ↦ (st, failed (unknown id))
    | some session ↦
        if is_over session.status
        then (st, ok session)
        else after_update st id (update_session_lifecycle st.store id (completed_patch now))
  ]

  -- The seat is marked, and its Prolific submission completed.
  unfoldable pub complete_seat :
      ServiceState N → Text → Participant N → ℕ → Outcome N CompleteParticipantResponse
  unfolding mark_participant_completed get_study_settings complete_prolific_participation
  complete_seat st session_id participant now = (
    record {
      store =
          if is_some participant.completed_at
          then st.store
          else (mark_participant_completed st.store session_id participant.id (to_iso now)).0;
      participation = completed_participation participant.prolific now st.participation;
    },
    ok (record {
      completed_at = first_some participant.completed_at (some (to_iso now));
      compensation_url =
          url_for participant.prolific (get_study_settings st.store).compensation_url;
      recruitment_source = participant.recruitment_source;
    }),
  )

  unfoldable pub complete_participant :
      ServiceState N → Text → Text → ℕ → Outcome N CompleteParticipantResponse
  unfolding get_session complete_seat get_participation_outcome
  complete_participant st session_id participant_id now = elim (get_session st.store session_id) [
    | none ↦ (st, failed (unknown session_id))
    | some session ↦ elim (find (has_id participant_id) session.participants) [
      | none ↦ (st, failed (ServiceError.not_found (text "Unknown participant " ++ participant_id)))
      | some participant ↦
          if is_some participant.exit_survey
          then (if has_ended st.participation participant.prolific
              then (
                st,
                failed (ServiceError.conflict (text "This participation has already ended")),
              )
              else complete_seat st session_id participant now)
          else (
            st,
            failed (
                ServiceError.conflict (text "The exit survey must be submitted before completion")),
          )
    ]
  ]

  unfoldable pub checkpoint_session :
      ServiceState N → Text → CheckpointSessionRequest N → Outcome N (Unit {0})
  unfolding save_runtime_checkpoint
  checkpoint_session st id checkpoint = elim (save_runtime_checkpoint st.store id checkpoint) [
    | none ↦ (st, failed unknown_session)
    | some store ↦ (with_store st store, ok tt)
  ]

  -- The write of `finalizeSession` after its checkpoint.
  unfoldable pub close_finalized : ServiceState N → Text → ℕ → Outcome N (Session N)
  unfolding get_session update_session_lifecycle
  close_finalized st id now = elim (get_session st.store id) [
    | none ↦ (st, failed (unknown id))
    | some current ↦
        if is_aborted current.status
        then (st, ok current)
        else after_update st id (update_session_lifecycle st.store id (completed_patch now))
  ]

  unfoldable pub finalize_session :
      ServiceState N → Text → CheckpointSessionRequest N → ℕ → Outcome N (Session N)
  unfolding save_runtime_checkpoint close_finalized
  finalize_session st id checkpoint now = elim (save_runtime_checkpoint st.store id checkpoint) [
    | none ↦ (st, failed unknown_session)
    | some store ↦ close_finalized (with_store st store) id now
  ]

  unfoldable pub submit_debrief_feedback :
      ServiceState N → Text → Text → Text → Outcome N (Unit {0})
  unfolding patch_exit_survey_answers
  submit_debrief_feedback st session_id participant_id feedback =
      let (store, patched) =
        patch_exit_survey_answers st.store session_id participant_id
          ((text "debriefFeedback", Answer.str feedback) ∷ []) in
      if patched then (with_store st store, ok tt) else (
        with_store st store,
        failed (ServiceError.not_found (text "Unknown participant or missing exit survey")),
      )

  -- Whether the bot could be invited again is only logged.
  unfoldable pub recover_running_sessions :
      ServiceState N → Text → Result (List (StartSessionNotification N))
  unfolding running_sessions checkpoint_from_session
  recover_running_sessions st [] = failed (ServiceError.bad_request (text "botUserId is required"))
  recover_running_sessions st (b ∷ bot_user_id) = ok (map note (running_sessions st.store))
    where
      note : Session N → StartSessionNotification N
      note session = record {
        session_id = session.id;
        room_id = session.room_id;
        condition = session.condition;
        duration_minutes = session.duration_minutes;
        started_at = session.started_at;
        participant_user_ids = user_ids session.participants;
        checkpoint = some (checkpoint_from_session session);
      }
