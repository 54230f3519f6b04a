-- ===== src/Sessions/Provisioning/Progress.antt =====
-- A complete group gets its room in one attempt if the homeserver and the Chat Service answer.
use Prim.Native.Nat.{ℕ}
use mathlib.Core.Path.{subst}
use gdm_platform.Common.{
  Text, Text-eq, List, [], ◌∷◌, none, some, Bool, true, get, get-put, ==_refl, ◌≡◌, refl, sym, ◌∙◌,
  inl, inr, Bool-cases, Option-cases,
}
use gdm_platform.Shared.Timestamp.{to_iso}
use gdm_platform.Shared.Models.{Session, Participant}
use gdm_platform.Store.State.{StoreState}
use gdm_platform.Store.Lookup.{is_waiting, get_session, get_participant_creds}
use gdm_platform.Store.Seats.{set_session}
use gdm_platform.Store.Lifecycle.{is_provisioning, patched}
use gdm_platform.Sessions.Completion.{StartSessionNotification}
use gdm_platform.Sessions.Provisioning.{
  Answers, published, room_of, room_patch, start_note, is_full_lobby, all_registered,
  ensure_matrix_member, ensure_members, publish, in_new_room, provision, after_claim,
  provision_claimed, ensure_provisioned,
}
use gdm_platform.Sessions.Provisioning.Ready.{
  finish_running, room_stored, claimed_session, claimed_stored, full_of_lobby, Publication,
  published-IsReady,
}

-- The homeserver lets every user join, and the Chat Service accepts every session.
pub record IsWilling {N : Type 0} (answers : Answers N) : Type 0 where
  pub room : Text
  pub creates : answers.create_room ≡ some room
  pub joins : (room_id token : Text) → answers.join_room room_id token ≡ true
  pub starts : (note : StartSessionNotification N) → answers.start note ≡ true

module _ {N : Type 0} (answers : Answers N) (w : IsWilling answers) where
  ensure_members_none :
      (room_id : Text) (st : StoreState N) (ps : List (Participant N))
      → all_registered st ps ≡ true
      → ensure_members answers room_id st ps ≡ none
  unfolding ensure_members ensure_matrix_member all_registered
  ensure_members_none room_id st [] h = refl
  ensure_members_none room_id st (p ∷ ps) h = elim (Option-cases (get_participant_creds st p.id)) [
    | inl missing ↦ cc (rw (missing, all_registered) at h)
    | inr (creds, known) ↦
        rw (known, ensure_members)
          (rw (w.joins room_id creds.access_token, ensure_matrix_member)
            (ensure_members_none room_id st ps (rw (known, all_registered) at h)))
  ]

  publish_published :
      (st : StoreState N) (s s' : Session N) (room_id : Text) (now : ℕ)
      → get s.id st.sessions ≡ some s'
      → is_provisioning s'.status ≡ true
      → all_registered st s.participants ≡ true
      → (publish answers st s room_id now).1 ≡ published
  unfolding publish
  publish_published st s s' room_id now found p all =
      let done = finish_running answers st s.id room_id (to_iso now) s' found p in
      rw (ensure_members_none room_id st s.participants all, publish)
        (rw (w.starts (start_note answers s room_id now)) (rw done refl))

  -- The credentials are kept apart from the sessions.
  all_registered-set :
      (st : StoreState N) (id : Text) (s : Session N) (ps : List (Participant N))
      → all_registered st ps ≡ true
      → all_registered (set_session st id s) ps ≡ true
  unfolding all_registered get_participant_creds
  all_registered-set st id s [] h = refl
  all_registered-set st id s (p ∷ ps) h = elim (Option-cases (get p.id st.memory_creds)) [
    | inl missing ↦ cc (rw (missing, all_registered, get_participant_creds) at h)
    | inr (creds, known) ↦
        rw (known, all_registered, get_participant_creds)
          (all_registered-set st id s ps (rw (known, all_registered, get_participant_creds) at h))
  ]

  provision_published :
      (st : StoreState N) (s : Session N) (now : ℕ)
      → get s.id st.sessions ≡ some s
      → is_provisioning s.status ≡ true
      → all_registered st s.participants ≡ true
      → (provision answers st s now).1 ≡ published
  unfolding provision in_new_room patched
  provision_published st s now found p all = elim (Option-cases (room_of s.room_id)) [
    | inr (room, q) ↦ rw (q, provision) (publish_published st s s room now found p all)
    | inl absent ↦
        let s' = patched (room_patch w.room) s in
        rw (absent, provision)
          (subst (λ o. (in_new_room answers o st s now).1 ≡ published) (sym w.creates)
            (rw (room_stored answers st s w.room found, in_new_room)
              (publish_published (set_session st s.id s') s s' w.room now
                (get-put s.id s.id s' st.sessions ∙ rw (==_refl s.id) refl) p
                (all_registered-set st s.id s' s.participants all))))
  ]

  provision_claimed_published :
      (st : StoreState N) (s : Session N) (now : ℕ)
      → get s.id st.sessions ≡ some s
      → is_waiting s.status ≡ true
      → all_registered st s.participants ≡ true
      → (provision_claimed answers st s.id now).1 ≡ published
  unfolding provision_claimed after_claim get_session
  provision_claimed_published st s now found lobby all =
      let store = set_session st s.id (claimed_session answers s) in
      let here : get s.id store.sessions ≡ some (claimed_session answers s) =
        get-put s.id s.id (claimed_session answers s) st.sessions ∙ rw (==_refl s.id) refl in
      subst (λ (c : StoreState N × Bool). (after_claim answers c s.id now).1 ≡ published)
        (sym (claimed_stored answers st s found lobby))
        (rw (here, after_claim)
          (provision_published store (claimed_session answers s) now here refl
            (all_registered-set st s.id (claimed_session answers s) s.participants all)))

full_lobby_answer :
    {N : Type 0} (answers : Answers N) (st : StoreState N) (s : Session N) (now : ℕ)
    → IsWilling answers
    → get s.id st.sessions ≡ some s
    → is_full_lobby s ≡ true
    → all_registered st s.participants ≡ true
    → (ensure_provisioned answers st s.id now).1 ≡ published
unfolding ensure_provisioned get_session
full_lobby_answer answers st s now w found ready all =
    let (full, kind) = full_of_lobby answers s ready in
    rw (found, ensure_provisioned)
      (rw ready (
        rw all (elim (Bool-cases (is_waiting s.status)) [
          | inl lobby ↦ rw lobby (provision_claimed_published answers w st s now found lobby all)
          | inr other ↦
              let taken : is_provisioning s.status ≡ true = elim kind [ inl l ↦ cc | inr p ↦ p ] in
              rw other (provision_published answers w st s now found taken all)
        ])))

-- A stored group that is complete, not yet live and has all its credentials is live after one
-- attempt, if the homeserver creates a room and lets everybody in and the Chat Service accepts: the
-- attempt says so, and the session is stored as running, complete and with its room, into which each
-- of its participants was let.
pub full_lobby_published :
    {N : Type 0} (answers : Answers N) (st : StoreState N) (s : Session N) (now : ℕ)
    → IsWilling answers
    → get s.id st.sessions ≡ some s
    → is_full_lobby s ≡ true
    → all_registered st s.participants ≡ true
    → ((ensure_provisioned answers st s.id now).1 ≡ published)
      × Publication answers (ensure_provisioned answers st s.id now).0 s.id
full_lobby_published answers st s now w found ready all =
    let done = full_lobby_answer answers st s now w found ready all in
    (done, published-IsReady answers st s now found done)
