-- ===== src/Store/Lifecycle.antt =====
-- store/store.service.ts: the status of a stored session, from the lobby to its end.
use Prim.Native.Nat.{ℕ}
use gdm_platform.Common.{
  Text, Text-eq, List, [], ◌∷◌, Option, none, some, Bool, true, false, if◌then◌else◌, ◌==◌, leb,
  length, get, first_some, or_else, JsMap, map_values, is_some,
}
use gdm_platform.Shared.Timestamp.{Timestamp}
use gdm_platform.Shared.Number.{Number}
use gdm_platform.Shared.Models.{Session, SessionStatus, Condition}
use gdm_platform.Shared.Dto.{CheckpointSessionRequest}
use gdm_platform.Participation.Compensation.{EnvNumber}
use gdm_platform.Checkpoint.Merge.{merge_checkpoint_into_session}
use gdm_platform.Store.State.{StoreState}
use gdm_platform.Store.Forming.{new_forming_session}
use gdm_platform.Store.Rounds.{current_round}
use gdm_platform.Store.Lookup.{is_running}
use gdm_platform.Store.Seats.{set_session, change_stored}

pub record LifecyclePatch : Type 0 where
  pub status : Option SessionStatus
  pub room_id : Option Text
  pub started_at : Option Timestamp
  pub completed_at : Option Timestamp

-- `priorStatus` of an aborted lobby.
pub data LobbyStatus : Type 0 where
  waiting provisioning : LobbyStatus

pub record AbortedLobby : Type 0 where
  pub id : Text
  pub created_at : Timestamp
  pub participant_count : ℕ
  pub prior_status : LobbyStatus

abbrev pub lobby_status : SessionStatus → Option LobbyStatus
lobby_status SessionStatus.waiting = some LobbyStatus.waiting
lobby_status SessionStatus.provisioning = some LobbyStatus.provisioning
lobby_status _ = none

-- Which lobbies are aborted: the waiting ones, or those that are past their deadline.
pub data Aborting : Type 0 where
  all_waiting : Aborting
  expired : (now : ℕ) → Aborting

-- `waitingDeadlineAt` is set and not after `now`; a date that is NaN is not after it.
abbrev pub is_overdue : ℕ → Option Timestamp → Bool
is_overdue now none = false
is_overdue now (some deadline) = elim deadline.time [ none ↦ true | some ms ↦ leb ms now ]

abbrev pub is_provisioning : SessionStatus → Bool
is_provisioning SessionStatus.provisioning = true
is_provisioning _ = false

-- The status after a claim.
abbrev pub claimed : SessionStatus → SessionStatus
claimed SessionStatus.waiting = SessionStatus.provisioning
claimed status = status

abbrev pub is_room : Text → Option Text → Bool
is_room room_id none = false
is_room room_id (some room) = room == room_id

module _ {N : Type 0} where
  -- `undefined` leaves a field as it is.
  unfoldable pub patched : LifecyclePatch → Session N → Session N
  patched patch session = record session {
    status = or_else patch.status session.status;
    room_id = first_some patch.room_id session.room_id;
    started_at = first_some patch.started_at session.started_at;
    completed_at = first_some patch.completed_at session.completed_at;
  }

  unfoldable pub update_session_lifecycle :
      StoreState N → Text → LifecyclePatch → Option (StoreState N)
  unfolding patched change_stored
  update_session_lifecycle st id patch = change_stored st id (patched patch)

  unfoldable pub claim_session_provisioning : StoreState N → Text → StoreState N × Bool
  claim_session_provisioning st id = elim (get id st.sessions) [
    | none ↦ (st, false)
    | some session ↦ (
      set_session st id (record session { status = claimed session.status }),
      is_provisioning (claimed session.status),
    )
  ]

  unfoldable pub finish_session_provisioning :
      StoreState N → Text → Text → Timestamp → StoreState N × Bool
  finish_session_provisioning st id room_id started_at = elim (get id st.sessions) [
    | none ↦ (st, false)
    | some session ↦
        if is_running session.status
        then (st, is_room room_id session.room_id)
        else (if is_provisioning session.status
            then (
              set_session st id (record session {
                room_id = some room_id;
                status = SessionStatus.running;
                started_at = some started_at;
              }),
              true,
            )
            else (st, false))
  ]

  unfoldable pub save_session : StoreState N → Session N → StoreState N
  save_session st session = set_session st session.id session

  unfoldable pub save_runtime_checkpoint :
      StoreState N → Text → CheckpointSessionRequest N → Option (StoreState N)
  unfolding change_stored
  save_runtime_checkpoint st session_id checkpoint =
      change_stored st session_id (λ stored. merge_checkpoint_into_session stored checkpoint)

  -- The prior status of a session that is aborted.
  unfoldable pub aborts : Aborting → Session N → Option LobbyStatus
  aborts all_waiting session = elim session.status [
    | SessionStatus.waiting ↦ some LobbyStatus.waiting
    | _ ↦ none
  ]
  aborts (expired now) session =
      if is_overdue now session.waiting_deadline_at then lobby_status session.status else none

  abbrev pub aborted_lobby : Session N → LobbyStatus → AbortedLobby
  aborted_lobby session prior_status = record {
    id = session.id;
    created_at = session.created_at;
    participant_count = length session.participants;
    prior_status = prior_status;
  }

  abbrev pub abort_session : Session N → Session N
  abort_session session = record session { status = SessionStatus.aborted }

  -- The body of the loop of `abortLobbies`, and the list that the loop fills.
  unfoldable pub abort_if_due : Aborting → Session N → Session N
  unfolding aborts
  abort_if_due aborting s = if is_some (aborts aborting s) then abort_session s else s

  unfoldable pub aborted_each : Aborting → JsMap Text (Session N) → List AbortedLobby
  unfolding aborts
  aborted_each aborting [] = []
  aborted_each aborting ((k, s) ∷ m) =
      let rest = aborted_each aborting m in
      elim (aborts aborting s) [ none ↦ rest | some prior ↦ aborted_lobby s prior ∷ rest ]

  unfoldable pub abort_lobbies : StoreState N → Aborting → StoreState N × List AbortedLobby
  unfolding abort_if_due aborted_each
  abort_lobbies st aborting = (
    record st { sessions = map_values (abort_if_due aborting) st.sessions },
    aborted_each aborting st.sessions,
  )

module _ {N : Type 0} ⦃n : Number N⦄ where
  unfoldable pub create_forming :
      StoreState N → EnvNumber → Text → (ℕ → ℕ) → Condition N → ℕ → StoreState N × Session N
  unfolding current_round new_forming_session save_session
  create_forming st waiting_env id pick_index condition now =
      let (st', round) = current_round st now in
      let session = new_forming_session waiting_env id pick_index condition round.id now in
      (save_session st' session, session)
