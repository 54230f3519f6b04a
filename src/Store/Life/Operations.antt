-- ===== src/Store/Life/Operations.antt =====
-- The operations on the status of a session, and its checkpoints, let the sessions grow along the
-- diagram.
use gdm_platform.Common.{
  Text, Text-eq, some, true, get, is_some, ◌≡◌, refl, arith, Bool-cases, Option-cases, inl, inr,
  or_else,
}
use gdm_platform.Shared.Timestamp.{Timestamp}
use gdm_platform.Shared.Models.{
  Session, SessionStatus, waiting, provisioning, running, completed, aborted,
}
use gdm_platform.Shared.Dto.{CheckpointSessionRequest}
use gdm_platform.Checkpoint.Merge.{merge_checkpoint_into_session}
use gdm_platform.Store.State.{StoreState}
use gdm_platform.Store.Lookup.{is_running}
use gdm_platform.Store.Seats.{change_stored}
use gdm_platform.Store.Lifecycle.{
  all_waiting, expired, lobby_status, claimed, is_provisioning, claim_session_provisioning,
  finish_session_provisioning, save_runtime_checkpoint, Aborting, aborts, abort_if_due,
  abort_lobbies, LifecyclePatch, patched, update_session_lifecycle,
}
use gdm_platform.Store.Life.{
  ◌⟶*◌, here, claim, publish, give_up, fail, ⟶*-one, Follows, Follows-refl, Follows-same,
}
use gdm_platform.Store.Life.Growth.{IsFiled, Grown, Grown-refl, put-Grown, map_values-Grown}

lobby-⟶* : (t : SessionStatus) → is_some (lobby_status t) ≡ true → t ⟶* aborted
lobby-⟶* waiting h = ⟶*-one give_up
lobby-⟶* provisioning h = ⟶*-one fail
lobby-⟶* running h = cc
lobby-⟶* completed h = cc
lobby-⟶* aborted h = cc

module _ {N : Type 0} where
  -- Only the status changes, along the diagram.
  pub Follows-status :
      (s : Session N) (t : SessionStatus) → s.status ⟶* t → Follows s (record s { status = t })
  Follows-status s t p =
      Follows-same s (record s { status = t }) p (inl refl) (refl, refl, refl) (refl, refl)

  pub claim-Grown :
      (st : StoreState N) (id : Text)
      → IsFiled st.sessions
      → Grown st.sessions (claim_session_provisioning st id).0.sessions
  unfolding claim_session_provisioning
  claim-Grown st id w = elim (Option-cases (get id st.sessions)) [
    | inl missing ↦ rw (missing, claim_session_provisioning) (Grown-refl st.sessions w)
    | inr (s, found) ↦
        rw (found, claim_session_provisioning)
          (put-Grown st.sessions id s (record s { status = claimed s.status }) w found
            (Follows-status s (claimed s.status) (path s.status)))
  ]
    where
      path : (t : SessionStatus) → t ⟶* claimed t
      path waiting = ⟶*-one claim
      path provisioning = here
      path running = here
      path completed = here
      path aborted = here

  -- Only a lobby is aborted.
  pub aborts-lobby :
      (aborting : Aborting) (s : Session N)
      → is_some (aborts aborting s) ≡ true
      → is_some (lobby_status s.status) ≡ true
  unfolding aborts
  aborts-lobby all_waiting s h = ground arith
  aborts-lobby (expired now) s h = ground arith

  abort_if_due-Follows : (aborting : Aborting) (s : Session N) → Follows s (abort_if_due aborting s)
  unfolding abort_if_due
  abort_if_due-Follows aborting s = elim (Bool-cases (is_some (aborts aborting s))) [
    | inl due ↦ rw due (Follows-status s aborted (lobby-⟶* s.status (aborts-lobby aborting s due)))
    | inr kept ↦ rw kept (Follows-refl s)
  ]

  pub abort_lobbies-Grown :
      (st : StoreState N) (aborting : Aborting)
      → IsFiled st.sessions
      → Grown st.sessions (abort_lobbies st aborting).0.sessions
  unfolding abort_lobbies
  abort_lobbies-Grown st aborting w =
      map_values-Grown (abort_if_due aborting) st.sessions (abort_if_due-Follows aborting) w

  merge-Follows :
      (s : Session N) (checkpoint : CheckpointSessionRequest N)
      → Follows s (merge_checkpoint_into_session s checkpoint)
  unfolding merge_checkpoint_into_session
  merge-Follows s checkpoint =
      Follows-same s (merge_checkpoint_into_session s checkpoint) here (inl refl) (refl, refl, refl)
        (refl, refl)

  -- A change of a stored session by a follower; an error leaves the store alone.
  pub change_stored-Grown :
      (st : StoreState N) (id : Text) (f : Session N → Session N)
      → IsFiled st.sessions
      → ((s : Session N) → get id st.sessions ≡ some s → Follows s (f s))
      → Grown st.sessions (or_else (change_stored st id f) st).sessions
  unfolding change_stored
  change_stored-Grown st id f w h = elim (Option-cases (get id st.sessions)) [
    | inl missing ↦ rw (missing, change_stored) (Grown-refl st.sessions w)
    | inr (s, found) ↦
        rw (found, change_stored) (put-Grown st.sessions id s (f s) w found (h s found))
  ]

  pub save_runtime_checkpoint-Grown :
      (st : StoreState N) (id : Text) (checkpoint : CheckpointSessionRequest N)
      → IsFiled st.sessions
      → Grown st.sessions (or_else (save_runtime_checkpoint st id checkpoint) st).sessions
  unfolding save_runtime_checkpoint
  save_runtime_checkpoint-Grown st id checkpoint w =
      change_stored-Grown st id (λ stored. merge_checkpoint_into_session stored checkpoint) w
        (λ s _. merge-Follows s checkpoint)

  patched-Follows :
      (s : Session N) (patch : LifecyclePatch)
      → s.status ⟶* or_else patch.status s.status
      → Follows s (patched patch s)
  unfolding patched
  patched-Follows s patch p =
      Follows-same s (patched patch s) p (inl refl) (refl, refl, refl) (refl, refl)

  -- An update along the diagram.
  pub update-Grown :
      (st : StoreState N) (id : Text) (patch : LifecyclePatch)
      → IsFiled st.sessions
      → ((s : Session N) → get id st.sessions ≡ some s → s.status ⟶* or_else patch.status s.status)
      → Grown st.sessions (or_else (update_session_lifecycle st id patch) st).sessions
  unfolding update_session_lifecycle
  update-Grown st id patch w h =
      change_stored-Grown st id (patched patch) w (λ s found. patched-Follows s patch (h s found))

  pub finish-Grown :
      (st : StoreState N) (id room_id : Text) (started_at : Timestamp)
      → IsFiled st.sessions
      → Grown st.sessions (finish_session_provisioning st id room_id started_at).0.sessions
  unfolding finish_session_provisioning
  finish-Grown st id room_id started_at w = elim (Option-cases (get id st.sessions)) [
    | inl missing ↦ rw (missing, finish_session_provisioning) (Grown-refl st.sessions w)
    | inr (s, found) ↦
        rw (found, finish_session_provisioning)
          (elim (Bool-cases (is_running s.status)) [
            | inl runs ↦ rw runs (Grown-refl st.sessions w)
            | inr rests ↦ rw rests (elim (Bool-cases (is_provisioning s.status)) [
              | inl ready ↦ rw ready (
                  put-Grown st.sessions id s
                    (record s {
                      room_id = some room_id;
                      status = running;
                      started_at = some started_at;
                    })
                    w found
                    (Follows-same s _ (path s.status ready) (inl refl) (refl, refl, refl)
                      (refl, refl)))
              | inr other ↦ rw other (Grown-refl st.sessions w)
            ])
          ])
  ]
    where
      path : (t : SessionStatus) → is_provisioning t ≡ true → t ⟶* running
      path provisioning h = ⟶*-one publish
      path waiting h = cc
      path running h = cc
      path completed h = cc
      path aborted h = cc
