-- ===== src/Sessions/Run/Opened.antt =====
-- The sessions under the provisioning of rooms and of Matrix identities (room-provisioning.ts).
use Prim.Native.Nat.{ℕ}
use gdm_platform.Common.{
  Text, Text-eq, Option, none, some, Bool, true, false, ◌&&◌, inl, inr, Bool-cases, Option-cases,
}
use gdm_platform.Shared.Timestamp.{to_iso}
use gdm_platform.Shared.Models.{Session, Participant}
use gdm_platform.Store.State.{StoreState, MatrixCreds}
use gdm_platform.Store.Lookup.{is_waiting, get_session, get_participant_creds}
use gdm_platform.Store.Lifecycle.{claim_session_provisioning, update_session_lifecycle}
use gdm_platform.Store.Seats.{set_participant_creds}
use gdm_platform.Store.Life.{here}
use gdm_platform.Store.Life.Growth.{IsFiled, Grown, Grown-refl, Grown-trans}
use gdm_platform.Store.Life.Operations.{claim-Grown, update-Grown, finish-Grown}
use gdm_platform.Store.Life.Rosters.{set_participant_creds-Grown}
use gdm_platform.Sessions.Provisioning.{
  Answers, room_of, room_patch, start_note, is_full_lobby, all_registered, ensure_members, publish,
  in_new_room, provision, after_claim, provision_claimed, ensure_provisioned,
  ensure_participant_access,
}

module _ {N : Type 0} where
  pub ensure_participant_access-Grown :
      (st : StoreState N) (p : Participant N) (registered : Option MatrixCreds)
      → IsFiled st.sessions
      → Grown st.sessions (ensure_participant_access st p registered).0.sessions
  unfolding ensure_participant_access
  ensure_participant_access-Grown st p registered w =
      elim (Option-cases (get_participant_creds st p.id)) [
        | inr (creds, known) ↦ rw (known, ensure_participant_access) (Grown-refl st.sessions w)
        | inl unknown ↦ rw (unknown, ensure_participant_access) (answer registered)
      ]
    where
      answer :
          (r : Option MatrixCreds)
          → Grown st.sessions
              (elim r as (λ _. StoreState N × Option MatrixCreds) [
                | none ↦ (st, none)
                | some creds ↦ (set_participant_creds st p.id creds, some creds)
              ]).0.sessions
      answer none = Grown-refl st.sessions w
      answer (some creds) = set_participant_creds-Grown st p.id creds w

  module _ (answers : Answers N) where
    publish-Grown :
        (st : StoreState N) (s : Session N) (room_id : Text) (now : ℕ)
        → IsFiled st.sessions
        → Grown st.sessions (publish answers st s room_id now).0.sessions
    unfolding publish
    publish-Grown st s room_id now w =
        elim (Option-cases (ensure_members answers room_id st s.participants)) [
          | inr (e, p) ↦ rw (p, publish) (Grown-refl st.sessions w)
          | inl joined ↦
              rw (joined, publish)
                (elim (Bool-cases (answers.start (start_note answers s room_id now))) [
                  | inl started ↦ rw started (finish-Grown st s.id room_id (to_iso now) w)
                  | inr refused ↦ rw refused (Grown-refl st.sessions w)
                ])
        ]

    in_new_room-Grown :
        (room : Option Text) (st : StoreState N) (s : Session N) (now : ℕ)
        → IsFiled st.sessions
        → Grown st.sessions (in_new_room answers room st s now).0.sessions
    unfolding in_new_room
    in_new_room-Grown none st s now w = Grown-refl st.sessions w
    in_new_room-Grown (some room) st s now w =
        let kept = update-Grown st s.id (room_patch room) w (λ t q. here) in
        elim (Option-cases (update_session_lifecycle st s.id (room_patch room))) [
          | inl missing ↦ rw (missing, in_new_room) (Grown-refl st.sessions w)
          | inr (store, found) ↦
              let grown : Grown st.sessions store.sessions = rw found at kept in
              rw (found, in_new_room)
                (Grown-trans grown (publish-Grown store s room now grown.filed))
        ]

    provision-Grown :
        (st : StoreState N) (s : Session N) (now : ℕ)
        → IsFiled st.sessions
        → Grown st.sessions (provision answers st s now).0.sessions
    unfolding provision
    provision-Grown st s now w = elim (Option-cases (room_of s.room_id)) [
      | inr (room, p) ↦ rw (p, provision) (publish-Grown st s room now w)
      | inl absent ↦ rw (absent, provision) (in_new_room-Grown answers.create_room st s now w)
    ]

    after_claim-Grown :
        (claimed : StoreState N × Bool) (id : Text) (now : ℕ)
        → IsFiled claimed.0.sessions
        → Grown claimed.0.sessions (after_claim answers claimed id now).0.sessions
    unfolding after_claim
    after_claim-Grown (st, false) id now w = Grown-refl st.sessions w
    after_claim-Grown (st, true) id now w = elim (Option-cases (get_session st id)) [
      | inl missing ↦ rw (missing, after_claim) (Grown-refl st.sessions w)
      | inr (s, found) ↦ rw (found, after_claim) (provision-Grown st s now w)
    ]

    provision_claimed-Grown :
        (st : StoreState N) (id : Text) (now : ℕ)
        → IsFiled st.sessions
        → Grown st.sessions (provision_claimed answers st id now).0.sessions
    unfolding provision_claimed
    provision_claimed-Grown st id now w =
        let grown = claim-Grown st id w in
        Grown-trans grown (after_claim-Grown (claim_session_provisioning st id) id now grown.filed)

    pub ensure_provisioned-Grown :
        (st : StoreState N) (id : Text) (now : ℕ)
        → IsFiled st.sessions
        → Grown st.sessions (ensure_provisioned answers st id now).0.sessions
    unfolding ensure_provisioned
    ensure_provisioned-Grown st id now w = elim (Option-cases (get_session st id)) [
      | inl missing ↦ rw (missing, ensure_provisioned) (Grown-refl st.sessions w)
      | inr (s, found) ↦
          rw (found, ensure_provisioned)
            (elim (Bool-cases (is_full_lobby s && all_registered st s.participants)) [
              | inr unready ↦ rw unready (Grown-refl st.sessions w)
              | inl ready ↦ rw ready (elim (Bool-cases (is_waiting s.status)) [
                | inl lobby ↦ rw lobby (provision_claimed-Grown st id now w)
                | inr claimed ↦ rw claimed (provision-Grown st s now w)
              ])
            ])
    ]
