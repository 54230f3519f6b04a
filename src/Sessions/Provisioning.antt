-- ===== src/Sessions/Provisioning.antt =====
-- sessions/room-provisioning.ts: one attempt to open the room of a complete group. The attempts for
-- one session run one after the other (`provisionChains`). The answers of the homeserver and of the
-- Chat Service are a parameter; the invitation of the bot is left out, since its failure is logged.
pub mod Ready
pub mod Progress
use Prim.Native.Nat.{ℕ}
use gdm_platform.Common.{
  Text, Text-eq, text, List, [], ◌∷◌, Option, none, some, Bool, true, false, ◌&&◌, ◌||◌, not,
  if◌then◌else◌, ltb, length, first_some, or_else,
}
use gdm_platform.Shared.Timestamp.{Timestamp, to_iso}
use gdm_platform.Shared.Models.{Session, SessionStatus, Participant, Condition}
use gdm_platform.Store.State.{StoreState, MatrixCreds}
use gdm_platform.Store.Lookup.{is_waiting, get_session, get_participant_creds}
use gdm_platform.Store.Seats.{set_participant_creds}
use gdm_platform.Store.Lifecycle.{
  LifecyclePatch, update_session_lifecycle, claim_session_provisioning, finish_session_provisioning,
  is_provisioning,
}
use gdm_platform.Sessions.Completion.{StartSessionNotification, user_ids}

-- The answers to one attempt: the room that `createRoom` makes, whether a user is invited into a
-- room and joins it with their token, and whether the Chat Service accepts the session; `none` and
-- `false` are errors.
pub record Answers (N : Type 0) : Type 0 where
  pub create_room : Option Text
  pub invite : (room_id user_id : Text) → Bool
  pub join_room : (room_id access_token : Text) → Bool
  pub start : StartSessionNotification N → Bool

-- A join that fails is `not_joined` after an invitation that was taken, else `not_restored`.
pub data ProvisionError : Type 0 where
  unknown_session no_room no_credentials not_joined not_restored : ProvisionError
  start_failed not_published : ProvisionError

-- What an attempt came to: it had nothing to do, threw, or published the room.
pub data Attempt : Type 0 where
  idle published : Attempt
  threw : ProvisionError → Attempt

abbrev pub room_patch : Text → LifecyclePatch
room_patch room_id = record {
  status = none;
  room_id = some room_id;
  started_at = none;
  completed_at = none;
}

-- `if (!roomId)`.
abbrev pub room_of : Option Text → Option Text
room_of (some (r ∷ room)) = some (r ∷ room)
room_of _ = none

module _ {N : Type 0} where
  -- The group is complete and its room is still to come.
  abbrev pub is_full_lobby : Session N → Bool
  is_full_lobby session =
      (is_waiting session.status || is_provisioning session.status)
      && not (ltb (length session.participants) session.condition.group_size)

  unfoldable pub all_registered : StoreState N → List (Participant N) → Bool
  unfolding get_participant_creds
  all_registered st [] = true
  all_registered st (p ∷ ps) = elim (get_participant_creds st p.id) [
    | none ↦ false
    | some _ ↦ all_registered st ps
  ]

  module _ (answers : Answers N) where
    -- An error of the invitation counts only where the join fails.
    unfoldable pub ensure_matrix_member : Text → MatrixCreds → Option ProvisionError
    ensure_matrix_member room_id creds =
        if answers.join_room room_id creds.access_token
        then none
        else some (if answers.invite room_id creds.user_id then not_joined else not_restored)

    -- The loop over the members; `none` is success.
    unfoldable pub ensure_members :
        Text → StoreState N → List (Participant N) → Option ProvisionError
    unfolding get_participant_creds ensure_matrix_member
    ensure_members room_id st [] = none
    ensure_members room_id st (p ∷ ps) =
        let rest = ensure_members room_id st ps in
        elim (get_participant_creds st p.id) [
          | none ↦ some no_credentials
          | some creds ↦ elim (ensure_matrix_member room_id creds) [
            | none ↦ rest
            | some error ↦ some error
          ]
        ]

    -- The session that the Chat Service is told about.
    abbrev pub start_note : Session N → Text → ℕ → StartSessionNotification N
    start_note session room_id now = record {
      session_id = session.id;
      room_id = some room_id;
      condition = session.condition;
      duration_minutes = session.duration_minutes;
      started_at = some (to_iso now);
      participant_user_ids = user_ids session.participants;
      checkpoint = none;
    }

    -- From the room on: members, Chat Service, publication.
    unfoldable pub publish : StoreState N → Session N → Text → ℕ → StoreState N × Attempt
    unfolding ensure_members finish_session_provisioning
    publish st session room_id now = elim (ensure_members room_id st session.participants) [
      | some error ↦ (st, threw error)
      | none ↦
          if answers.start (start_note session room_id now)
          then (let (st', ready) = finish_session_provisioning st session.id room_id (to_iso now) in
              (st', if ready then published else threw not_published))
          else (st, threw start_failed)
    ]

    -- A new room, which `createRoom` answers, is stored before anybody is let in.
    unfoldable pub in_new_room : Option Text → StoreState N → Session N → ℕ → StoreState N × Attempt
    unfolding publish update_session_lifecycle
    in_new_room none st session now = (st, threw no_room)
    in_new_room (some room_id) st session now =
        elim (update_session_lifecycle st session.id (room_patch room_id)) [
          | none ↦ (st, threw unknown_session)
          | some st' ↦ publish st' session room_id now
        ]

    unfoldable pub provision : StoreState N → Session N → ℕ → StoreState N × Attempt
    unfolding publish in_new_room
    provision st session now = elim (room_of session.room_id) [
      | some room_id ↦ publish st session room_id now
      | none ↦ in_new_room answers.create_room st session now
    ]

    -- After the claim of a waiting group, whose session is read again.
    unfoldable pub after_claim : StoreState N × Bool → Text → ℕ → StoreState N × Attempt
    unfolding provision get_session
    after_claim (st, false) id now = (st, idle)
    after_claim (st, true) id now = elim (get_session st id) [
      | none ↦ (st, threw unknown_session)
      | some session ↦ provision st session now
    ]

    unfoldable pub provision_claimed : StoreState N → Text → ℕ → StoreState N × Attempt
    unfolding claim_session_provisioning after_claim
    provision_claimed st id now = after_claim (claim_session_provisioning st id) id now

    unfoldable pub ensure_provisioned : StoreState N → Text → ℕ → StoreState N × Attempt
    unfolding get_session all_registered provision provision_claimed
    ensure_provisioned st id now = elim (get_session st id) [
      | none ↦ (st, threw unknown_session)
      | some session ↦
          if is_full_lobby session && all_registered st session.participants
          then (if is_waiting session.status
              then provision_claimed st id now
              else provision st session now)
          else (st, idle)
    ]

  -- `ensureParticipantAccess`: credentials once per participant. `registered` is what the homeserver
  -- answers. Left out is the return of new credentials into a room that is there already, which
  -- changes no state here.
  unfoldable pub ensure_participant_access :
      StoreState N → Participant N → Option MatrixCreds → StoreState N × Option MatrixCreds
  unfolding get_participant_creds set_participant_creds
  ensure_participant_access st participant registered =
      elim (get_participant_creds st participant.id) [
        | some creds ↦ (st, some creds)
        | none ↦ elim registered [
          | none ↦ (st, none)
          | some creds ↦ (set_participant_creds st participant.id creds, some creds)
        ]
      ]
