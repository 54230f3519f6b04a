-- ===== src/Store/Lookup.antt =====
-- store/store.service.ts: the queries of sessions, participants and conditions in memory.
pub mod Least
pub mod Oldest
use Prim.Native.Nat.{ℕ}
use gdm_platform.Common.{
  Text, Text-eq, List, [], ◌∷◌, Option, none, some, Bool, true, false, not, ◌&&◌, ◌||◌, ltb, leb,
  nat_eq, if◌then◌else◌, ◌==◌, find, any, keep, length, get, values, or_else, is_some, sort,
}
use gdm_platform.Shared.Timestamp.{Timestamp}
use gdm_platform.Shared.Interventions.{WorkspaceMode}
use gdm_platform.Shared.Number.{Number}
use gdm_platform.Shared.Models.{Session, SessionStatus, Participant, Condition, ProlificIdentity}
use gdm_platform.Checkpoint.Merge.{is_etherpad}
use gdm_platform.Store.State.{StoreState, RoundState, MatrixCreds}
use gdm_platform.Store.Rounds.{all_memory_sessions, is_aborted, current_round}

pub data TaskMode : Type 0 where
  ranking etherpad : TaskMode

-- `!text`.
abbrev pub is_empty_text : Text → Bool
is_empty_text [] = true
is_empty_text (_ ∷ _) = false

abbrev pub is_waiting : SessionStatus → Bool
is_waiting SessionStatus.waiting = true
is_waiting _ = false

abbrev pub is_running : SessionStatus → Bool
is_running SessionStatus.running = true
is_running _ = false

-- `s.createdAt.localeCompare(…)` of ISO dates, which stand in the order of their times.
abbrev pub created_le : {N : Type 0} → Session N → Session N → Bool
created_le a b = leb (or_else a.created_at.time 0) (or_else b.created_at.time 0)

-- `workspaceMode === "etherpad" ? "etherpad" : "ranking"` is the mode, if one is asked for.
abbrev pub has_task_mode : Option TaskMode → WorkspaceMode → Bool
has_task_mode none mode = true
has_task_mode (some TaskMode.etherpad) mode = is_etherpad mode
has_task_mode (some TaskMode.ranking) mode = not (is_etherpad mode)

-- `prolific?.studyId === identity.studyId && prolific.sessionId === identity.sessionId`.
abbrev pub is_submission : ProlificIdentity → Option ProlificIdentity → Bool
is_submission identity none = false
is_submission identity (some p) =
    (p.study_id == identity.study_id) && (p.session_id == identity.session_id)

-- `list[0]`.
abbrev pub first {ℓ} : {A : Type ℓ} → List A → Option A
first [] = none
first (x ∷ _) = some x

module _ {N : Type 0} where
  -- The first session that lets a participant through, with that participant.
  abbrev pub find_seat :
      (Session N → Participant N → Bool) → List (Session N) → Option (Session N × Participant N)
  find_seat p [] = none
  find_seat p (s ∷ ss) = elim (find (p s) s.participants) [
    | some participant ↦ some (s, participant)
    | none ↦ find_seat p ss
  ]

  unfoldable pub find_by_tracking_token : StoreState N → Text → Option (Session N × Participant N)
  find_by_tracking_token st token =
      if is_empty_text token
      then none
      else (find_seat
          (λ s candidate. not (is_aborted s.status) && (candidate.tracking_token == token))
          (all_memory_sessions st))

  unfoldable pub find_by_prolific_session :
      StoreState N → ProlificIdentity → Option (Session N × Participant N)
  find_by_prolific_session st identity =
      find_seat (λ s candidate. is_submission identity candidate.prolific) (all_memory_sessions st)

  unfoldable pub has_participant_access : StoreState N → Text → Text → Option Text → Bool
  has_participant_access st session_id tracking_token participant_id =
      if is_empty_text session_id || is_empty_text tracking_token
      then false
      else (elim (get session_id st.sessions) [
        | none ↦ false
        | some session ↦
            any
              (λ participant.
                (participant.tracking_token == tracking_token)
                && asked_for participant.id participant_id)
              session.participants
      ])
    where
      asked_for : Text → Option Text → Bool
      asked_for id none = true
      asked_for id (some wanted) = is_empty_text wanted || (id == wanted)

  unfoldable pub get_session : StoreState N → Text → Option (Session N)
  get_session st id = get id st.sessions

  unfoldable pub get_condition : StoreState N → Text → Option (Condition N)
  get_condition st id = find (λ condition. condition.id == id) st.conditions

  unfoldable pub get_participant_creds : StoreState N → Text → Option MatrixCreds
  get_participant_creds st participant_id = get participant_id st.memory_creds

  -- `status === "running" && Boolean(roomId)`.
  unfoldable pub running_sessions : StoreState N → List (Session N)
  running_sessions st =
      keep (λ s. is_running s.status && not (is_empty_text (or_else s.room_id [])))
        (all_memory_sessions st)

  -- The lobby can take one more participant: what `findForming` filters by.
  unfoldable pub is_forming : StoreState N → ℕ → Option Text → Option TaskMode → Session N → Bool
  unfolding get_condition
  is_forming st round_id condition_id task_mode s =
      is_waiting s.status
      && nat_eq s.round_id round_id
      && is_active (get_condition st s.condition.id)
      && is_wanted condition_id
      && has_task_mode task_mode s.condition.config.workspace_mode
      && ltb (length s.participants) s.condition.group_size
    where
      is_active : Option (Condition N) → Bool
      is_active none = false
      is_active (some condition) = condition.active

      is_wanted : Option Text → Bool
      is_wanted none = true
      is_wanted (some wanted) = is_empty_text wanted || (s.condition.id == wanted)

module _ {N : Type 0} ⦃n : Number N⦄ where
  unfoldable pub find_forming :
      StoreState N → Option Text → Option TaskMode → ℕ → StoreState N × Option (Session N)
  unfolding is_forming current_round
  find_forming st condition_id task_mode now =
      let (st', current) = current_round st now in
      (
        st',
        first (
            sort created_le
              (keep (is_forming st' current.id condition_id task_mode) (all_memory_sessions st'))),
      )
