-- ===== src/Store/Seats.antt =====
-- store/store.service.ts: what changes a participant of a stored session. The session is changed in
-- place; here its entry is replaced.
use gdm_platform.Common.{
  Text, Text-eq, List, [], ◌∷◌, ◌++◌, Option, none, some, Bool, true, false, ◌&&◌, if◌then◌else◌,
  ◌==◌, find, any, get, put, is_some, first_some, JsMap, map_values, spread,
}
use gdm_platform.Shared.Timestamp.{Timestamp}
use gdm_platform.Shared.Models.{Session, SessionStatus, Participant, Survey, Answer}
use gdm_platform.Store.State.{StoreState, MatrixCreds}
use gdm_platform.Store.Lookup.{is_waiting}

pub data SurveyKind : Type 0 where
  entry exit : SurveyKind

-- `map.delete(key)`.
abbrev pub delete {κ} : {V : Type κ} → Text → JsMap Text V → JsMap Text V
delete k [] = []
delete k ((j, v) ∷ m) = if j == k then delete k m else (j, v) ∷ delete k m

module _ {N : Type 0} where
  abbrev pub has_id : Text → Participant N → Bool
  has_id id participant = participant.id == id

  -- A change of the first participant with the id.
  abbrev pub change_participant :
      Text → (Participant N → Participant N) → List (Participant N) → List (Participant N)
  change_participant id f [] = []
  change_participant id f (p ∷ ps) =
      if has_id id p then f p ∷ ps else p ∷ change_participant id f ps

  -- `participants.splice(index, 1)` of the first participant with the id.
  abbrev pub remove_participant : Text → List (Participant N) → List (Participant N)
  remove_participant id [] = []
  remove_participant id (p ∷ ps) = if has_id id p then ps else p ∷ remove_participant id ps

  abbrev pub set_session : StoreState N → Text → Session N → StoreState N
  set_session st id session = record st { sessions = put id session st.sessions }

  -- The stored session is changed; `none` is the error `Unknown session`.
  unfoldable pub change_stored :
      StoreState N → Text → (Session N → Session N) → Option (StoreState N)
  change_stored st id f = elim (get id st.sessions) [
    | none ↦ none
    | some session ↦ some (set_session st id (f session))
  ]

  -- `participants.push(participant)` unless its id is there.
  unfoldable pub with_participant : Session N → Participant N → Session N
  with_participant session participant =
      if any (has_id participant.id) session.participants
      then session
      else record session { participants = session.participants ++ participant ∷ [] }

  unfoldable pub add_participant : StoreState N → Text → Participant N → Option (StoreState N)
  unfolding with_participant change_stored
  add_participant st session_id participant =
      change_stored st session_id (λ session. with_participant session participant)

  -- `session.status = "aborted"` if nobody is left.
  abbrev pub status_of_roster : List (Participant N) → SessionStatus → SessionStatus
  status_of_roster [] status = SessionStatus.aborted
  status_of_roster (_ ∷ _) status = status

  unfoldable pub without_participant : Session N → Text → Session N
  without_participant session participant_id =
      let left = remove_participant participant_id session.participants in
      record session { participants = left; status = status_of_roster left session.status }

  unfoldable pub remove_participant_from_waiting_session :
      StoreState N → Text → Text → StoreState N × Bool
  unfolding without_participant
  remove_participant_from_waiting_session st session_id participant_id =
      elim (get session_id st.sessions) [
        | none ↦ (st, false)
        | some session ↦
            if is_waiting session.status && any (has_id participant_id) session.participants
            then (
              record st {
                sessions = put session_id (without_participant session participant_id) st.sessions;
                memory_creds = delete participant_id st.memory_creds;
              },
              true,
            )
            else (st, false)
      ]

  -- A change of one participant of one session, which reports whether it is there.
  abbrev pub change_seat :
      StoreState N → Text → Text → (Participant N → Participant N) → StoreState N × Bool
  change_seat st session_id participant_id f = elim (get session_id st.sessions) [
    | none ↦ (st, false)
    | some session ↦
        if any (has_id participant_id) session.participants
        then (
          set_session st session_id (record session {
            participants = change_participant participant_id f session.participants;
          }),
          true,
        )
        else (st, false)
  ]

  abbrev pub with_survey : SurveyKind → Survey N → Participant N → Participant N
  with_survey SurveyKind.entry survey p = record p { entry_survey = some survey }
  with_survey SurveyKind.exit survey p = record p { exit_survey = some survey }

  unfoldable pub save_participant_survey :
      StoreState N → Text → Text → SurveyKind → Survey N → StoreState N × Bool
  save_participant_survey st session_id participant_id kind survey =
      change_seat st session_id participant_id (with_survey kind survey)

  -- `Object.assign(exitSurvey.answers, patch)`.
  abbrev pub with_answers : JsMap Text (Answer N) → Participant N → Participant N
  with_answers patch p = elim p.exit_survey [
    | none ↦ p
    | some survey ↦ record p {
      exit_survey = some (record survey { answers = spread survey.answers patch });
    }
  ]

  abbrev pub has_exit_survey : Option (Participant N) → Bool
  has_exit_survey none = false
  has_exit_survey (some p) = is_some p.exit_survey

  unfoldable pub patch_exit_survey_answers :
      StoreState N → Text → Text → JsMap Text (Answer N) → StoreState N × Bool
  patch_exit_survey_answers st session_id participant_id patch = elim (get session_id st.sessions) [
    | none ↦ (st, false)
    | some session ↦
        if has_exit_survey (find (has_id participant_id) session.participants)
        then change_seat st session_id participant_id (with_answers patch)
        else (st, false)
  ]

  -- `participant.completedAt ??= completedAt`.
  abbrev pub with_completion : Timestamp → Participant N → Participant N
  with_completion completed_at p = record p {
    completed_at = first_some p.completed_at (some completed_at);
  }

  unfoldable pub mark_participant_completed :
      StoreState N → Text → Text → Timestamp → StoreState N × Bool
  mark_participant_completed st session_id participant_id completed_at =
      change_seat st session_id participant_id (with_completion completed_at)

  abbrev pub with_user : Text → Text → Session N → Session N
  with_user participant_id user_id session = record session {
    participants =
        change_participant participant_id (λ p. record p { matrix_user_id = some user_id })
          session.participants;
  }

  unfoldable pub set_participant_creds : StoreState N → Text → MatrixCreds → StoreState N
  set_participant_creds st participant_id creds = record st {
    memory_creds = put participant_id creds st.memory_creds;
    sessions = map_values (with_user participant_id creds.user_id) st.sessions;
  }
