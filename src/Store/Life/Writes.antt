-- ===== src/Store/Life/Writes.antt =====
-- The writes of the session store that carry their own condition, one by one. The service awaits
-- between them, so that those of several requests may follow one another in any order.
pub mod Steps
pub mod Claimed
use mathlib.Core.Path.{subst}
use Prim.Native.Nat.{ℕ}
use gdm_platform.Common.{
  Text, Text-eq, List, [], ◌∷◌, ◌++◌, some, Bool, true, false, ◌==◌, ==_iff, ◌&&◌, JsMap, get, put,
  get-put, map_values, get-map_values, any, find, is_some, ◌≡◌, ◌⊎◌, refl, sym, ap, ◌∙◌, arith,
  Bool-cases, Option-cases, inl, inr, or_else, if◌then◌else◌,
}
use gdm_platform.Shared.Timestamp.{Timestamp}
use gdm_platform.Shared.Models.{
  Session, SessionStatus, Participant, waiting, provisioning, running, completed, aborted, Answer,
  Survey,
}
use gdm_platform.Shared.Dto.{CheckpointSessionRequest}
use gdm_platform.Checkpoint.Merge.{merge_checkpoint_into_session}
use gdm_platform.Store.State.{StoreState, MatrixCreds}
use gdm_platform.Store.Lookup.{is_waiting, is_running}
use gdm_platform.Store.Seats.{
  has_id, change_participant, change_seat, with_user, with_survey, with_answers, with_completion,
  with_participant, without_participant, remove_participant, status_of_roster, change_stored,
  add_participant, remove_participant_from_waiting_session, save_participant_survey,
  has_exit_survey, patch_exit_survey_answers, mark_participant_completed, set_participant_creds,
  SurveyKind,
}
use gdm_platform.Store.Lifecycle.{
  lobby_status, claimed, is_provisioning, claim_session_provisioning, finish_session_provisioning,
  save_runtime_checkpoint, Aborting, aborts, abort_if_due, abort_lobbies,
}
use gdm_platform.Store.Life.Operations.{aborts-lobby}

pub data Write (N : Type 0) : Type 0 where
  claims : (id : Text) → Write N
  publishes : (id room_id : Text) (started_at : Timestamp) → Write N
  aborts_lobbies : Aborting → Write N
  seats : (session_id : Text) → Participant N → Write N
  releases : (session_id participant_id : Text) → Write N
  saves_survey : (session_id participant_id : Text) → SurveyKind → Survey N → Write N
  patches_survey : (session_id participant_id : Text) → JsMap Text (Answer N) → Write N
  marks_completed : (session_id participant_id : Text) → Timestamp → Write N
  sets_creds : (participant_id : Text) → MatrixCreds → Write N
  saves_checkpoint : (session_id : Text) → CheckpointSessionRequest N → Write N

-- What one write may do to a status.
infix 40 ◌⇝◌
pub data ◌⇝◌ : SessionStatus → SessionStatus → Type 0 where
  stays : {s : SessionStatus} → s ⇝ s
  claim : waiting ⇝ provisioning
  publish : provisioning ⇝ running
  give_up : waiting ⇝ aborted
  fail : provisioning ⇝ aborted

module _ {N : Type 0} where
  unfoldable pub write : StoreState N → Write N → StoreState N
  unfolding claim_session_provisioning finish_session_provisioning abort_lobbies add_participant
      remove_participant_from_waiting_session save_participant_survey patch_exit_survey_answers
      mark_participant_completed set_participant_creds save_runtime_checkpoint
  write st (claims id) = (claim_session_provisioning st id).0
  write st (publishes id room_id started_at) =
      (finish_session_provisioning st id room_id started_at).0
  write st (aborts_lobbies aborting) = (abort_lobbies st aborting).0
  write st (seats session_id participant) = or_else (add_participant st session_id participant) st
  write st (releases session_id participant_id) =
      (remove_participant_from_waiting_session st session_id participant_id).0
  write st (saves_survey session_id participant_id kind survey) =
      (save_participant_survey st session_id participant_id kind survey).0
  write st (patches_survey session_id participant_id patch) =
      (patch_exit_survey_answers st session_id participant_id patch).0
  write st (marks_completed session_id participant_id completed_at) =
      (mark_participant_completed st session_id participant_id completed_at).0
  write st (sets_creds participant_id creds) = set_participant_creds st participant_id creds
  write st (saves_checkpoint session_id checkpoint) =
      or_else (save_runtime_checkpoint st session_id checkpoint) st

  unfoldable pub write_all : StoreState N → List (Write N) → StoreState N
  write_all st [] = st
  write_all st (w ∷ ws) = write_all (write st w) ws

  -- No session is lost, and each has made at most one move.
  abbrev pub Moves : JsMap Text (Session N) → JsMap Text (Session N) → Type 0
  Moves m m' =
      (id : Text) (s : Session N)
      → get id m ≡ some s
      → (t : Session N) × (get id m' ≡ some t) × (s.status ⇝ t.status)
