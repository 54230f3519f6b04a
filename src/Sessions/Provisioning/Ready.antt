-- ===== src/Sessions/Provisioning/Ready.antt =====
-- When a room is published: not before everybody is in, and then at once.
use Prim.Native.Nat.{ℕ, ◌≤◌}
use mathlib.Core.Path.{subst}
use gdm_platform.Common.{
  Text, Text-eq, List, [], ◌∷◌, Option, none, some, Bool, true, false, ◌&&◌, get, get-put, ==_refl,
  ◌≡◌, refl, sym, ◌∙◌, inl, inr, Bool-cases, Option-cases, All, length, ◌⊎◌, arith,
}
use gdm_platform.Shared.Timestamp.{Timestamp, to_iso}
use gdm_platform.Shared.Models.{Session, SessionStatus, Participant, waiting, provisioning, running}
use gdm_platform.Store.State.{StoreState, MatrixCreds}
use gdm_platform.Store.Lookup.{is_waiting, is_running, get_session, get_participant_creds}
use gdm_platform.Store.Seats.{set_session, change_stored}
use gdm_platform.Store.Lifecycle.{
  is_provisioning, claimed, patched, claim_session_provisioning, update_session_lifecycle,
  finish_session_provisioning,
}
use gdm_platform.Sessions.Provisioning.{
  Answers, Attempt, published, room_of, room_patch, start_note, is_full_lobby, all_registered,
  ensure_matrix_member, ensure_members, publish, in_new_room, provision, after_claim,
  provision_claimed, ensure_provisioned,
}

module _ {N : Type 0} (answers : Answers N) where
  -- The participant has credentials, and the homeserver let them into the room.
  abbrev pub IsIn : Text → StoreState N → Participant N → Type 0
  IsIn room_id st p =
      (creds : MatrixCreds) × (get_participant_creds st p.id ≡ some creds)
      × (answers.join_room room_id creds.access_token ≡ true)

  ensure_members-All :
      (room_id : Text) (st : StoreState N) (ps : List (Participant N))
      → ensure_members answers room_id st ps ≡ none
      → All (IsIn room_id st) ps
  unfolding ensure_members ensure_matrix_member
  ensure_members-All room_id st [] h = tt
  ensure_members-All room_id st (p ∷ ps) h = elim (Option-cases (get_participant_creds st p.id)) [
    | inl missing ↦ cc (rw (missing, ensure_members) at h)
    | inr (creds, known) ↦
        let h' = rw (known, ensure_members) at h in
        elim (Bool-cases (answers.join_room room_id creds.access_token)) [
          | inl joined ↦ (
            (creds, known, joined),
            ensure_members-All room_id st ps (rw (joined, ensure_matrix_member) at h'),
          )
          | inr kept_out ↦ cc (rw (kept_out, ensure_matrix_member) at h')
        ]
  ]

  -- What a publication says of the store that it leaves.
  pub record Publication (st : StoreState N) (id : Text) : Type 0 where
    pub session : Session N
    pub room_id : Text
    pub stored : get id st.sessions ≡ some session
    pub is_live : session.status ≡ running
    pub in_room : session.room_id ≡ some room_id
    pub members : All (IsIn room_id st) session.participants
    pub full : session.condition.group_size ≤ length session.participants

  -- `finishSessionProvisioning` says yes for a session that now runs.
  pub finish_running :
      (st : StoreState N) (id room_id : Text) (started_at : Timestamp) (s : Session N)
      → get id st.sessions ≡ some s
      → is_provisioning s.status ≡ true
      → (finish_session_provisioning st id room_id started_at ≡ (
        set_session st id
            (record s { room_id = some room_id; status = running; started_at = some started_at }),
        true,
      ))
  unfolding finish_session_provisioning
  finish_running st id room_id started_at s found p =
      rw (found, finish_session_provisioning) (rw (not_running s.status p) (rw p refl))
    where
      not_running : (t : SessionStatus) → is_provisioning t ≡ true → is_running t ≡ false
      not_running provisioning h = refl
      not_running waiting h = cc
      not_running running h = cc
      not_running SessionStatus.completed h = cc
      not_running SessionStatus.aborted h = cc

  publish-IsReady :
      (st : StoreState N) (s s' : Session N) (room_id : Text) (now : ℕ)
      → get s.id st.sessions ≡ some s'
      → is_provisioning s'.status ≡ true
      → s'.participants ≡ s.participants
      → s'.condition.group_size ≤ length s'.participants
      → (publish answers st s room_id now).1 ≡ published
      → Publication (publish answers st s room_id now).0 s.id
  unfolding publish get_participant_creds
  publish-IsReady st s s' room_id now found p same full h =
      elim (Option-cases (ensure_members answers room_id st s.participants)) [
        | inr (e, q) ↦ cc (rw (q, publish) at h)
        | inl in_ ↦
            let h' = rw (in_, publish) at h in
            rw (in_, publish)
              (elim (Bool-cases (answers.start (start_note answers s room_id now))) [
                | inr refused ↦ cc (rw refused at h')
                | inl started ↦
                    let live = record s' {
                      room_id = some room_id;
                      status = running;
                      started_at = some (to_iso now);
                    } in
                    rw started (
                      rw (finish_running st s.id room_id (to_iso now) s' found p) (record {
                        session = live;
                        room_id = room_id;
                        stored = get-put s.id s.id live st.sessions ∙ rw (==_refl s.id) refl;
                        is_live = refl;
                        in_room = refl;
                        members =
                            subst (All (IsIn room_id st)) (sym same)
                              (ensure_members-All room_id st s.participants in_);
                        full = full;
                      }))
              ])
      ]

  -- The room is stored under the session before anybody is let in.
  pub room_stored :
      (st : StoreState N) (s : Session N) (room_id : Text)
      → get s.id st.sessions ≡ some s
      → update_session_lifecycle st s.id (room_patch room_id)
        ≡ some (set_session st s.id (patched (room_patch room_id) s))
  unfolding update_session_lifecycle change_stored
  room_stored st s room_id found = rw (found, update_session_lifecycle, change_stored) refl

  in_new_room-IsReady :
      (room : Option Text) (st : StoreState N) (s : Session N) (now : ℕ)
      → get s.id st.sessions ≡ some s
      → is_provisioning s.status ≡ true
      → s.condition.group_size ≤ length s.participants
      → (in_new_room answers room st s now).1 ≡ published
      → Publication (in_new_room answers room st s now).0 s.id
  unfolding in_new_room patched
  in_new_room-IsReady none st s now found p full h = cc
  in_new_room-IsReady (some room) st s now found p full h =
      let kept = room_stored st s room found in
      let s' = patched (room_patch room) s in
      rw (kept, in_new_room)
        (publish-IsReady (set_session st s.id s') s s' room now
          (get-put s.id s.id s' st.sessions ∙ rw (==_refl s.id) refl) p refl full
          (rw (kept, in_new_room) at h))

  provision-IsReady :
      (st : StoreState N) (s : Session N) (now : ℕ)
      → get s.id st.sessions ≡ some s
      → is_provisioning s.status ≡ true
      → s.condition.group_size ≤ length s.participants
      → (provision answers st s now).1 ≡ published
      → Publication (provision answers st s now).0 s.id
  unfolding provision
  provision-IsReady st s now found p full h = elim (Option-cases (room_of s.room_id)) [
    | inr (room, q) ↦
        rw (q, provision)
          (publish-IsReady st s s room now found p refl full (rw (q, provision) at h))
    | inl absent ↦
        rw (absent, provision)
          (in_new_room-IsReady answers.create_room st s now found p full
            (rw (absent, provision) at h))
  ]

  -- The session after its claim.
  abbrev pub claimed_session : Session N → Session N
  claimed_session s = record s { status = provisioning }

  pub claimed_stored :
      (st : StoreState N) (s : Session N)
      → get s.id st.sessions ≡ some s
      → is_waiting s.status ≡ true
      → claim_session_provisioning st s.id ≡ (set_session st s.id (claimed_session s), true)
  unfolding claim_session_provisioning
  claimed_stored st s found lobby =
      rw (found, claim_session_provisioning) (rw (was_waiting s.status lobby) refl)
    where
      was_waiting : (t : SessionStatus) → is_waiting t ≡ true → claimed t ≡ provisioning
      was_waiting waiting h = refl
      was_waiting provisioning h = cc
      was_waiting running h = cc
      was_waiting SessionStatus.completed h = cc
      was_waiting SessionStatus.aborted h = cc

  provision_claimed-IsReady :
      (st : StoreState N) (s : Session N) (now : ℕ)
      → get s.id st.sessions ≡ some s
      → is_waiting s.status ≡ true
      → s.condition.group_size ≤ length s.participants
      → (provision_claimed answers st s.id now).1 ≡ published
      → Publication (provision_claimed answers st s.id now).0 s.id
  unfolding provision_claimed after_claim get_session
  provision_claimed-IsReady st s now found lobby full h =
      let store = set_session st s.id (claimed_session s) in
      let claim = claimed_stored st s found lobby in
      let here : get s.id store.sessions ≡ some (claimed_session s) =
        get-put s.id s.id (claimed_session s) st.sessions ∙ rw (==_refl s.id) refl in
      let later : StoreState N × Bool → StoreState N × Attempt =
        λ c. after_claim answers c s.id now in
      subst (λ (c : StoreState N × Bool). Publication (later c).0 s.id) (sym claim)
        (rw (here, after_claim)
          (provision-IsReady store (claimed_session s) now here refl full (
            rw (here, after_claim) at
              (subst (λ (c : StoreState N × Bool). (later c).1 ≡ published) claim h))))

  pub full_of_lobby :
      (s : Session N)
      → is_full_lobby s ≡ true
      → (s.condition.group_size ≤ length s.participants)
        × ((is_waiting s.status ≡ true) ⊎ (is_provisioning s.status ≡ true))
  full_of_lobby s h = (
    ground arith,
    elim (Bool-cases (is_waiting s.status)) [ inl w ↦ inl w | inr o ↦ inr (ground arith) ],
  )

-- An attempt that publishes a room leaves the session stored as running, complete and with its room,
-- and each of its participants has credentials with which the homeserver let them into that room.
pub published-IsReady :
    {N : Type 0} (answers : Answers N) (st : StoreState N) (s : Session N) (now : ℕ)
    → get s.id st.sessions ≡ some s
    → (ensure_provisioned answers st s.id now).1 ≡ published
    → Publication answers (ensure_provisioned answers st s.id now).0 s.id
unfolding ensure_provisioned get_session
published-IsReady answers st s now found h =
    let h' = rw (found, ensure_provisioned) at h in
    rw (found, ensure_provisioned)
      (elim (Bool-cases (is_full_lobby s && all_registered st s.participants)) [
        | inr unready ↦ cc (rw unready at h')
        | inl ready ↦
            let (full, kind) = full_of_lobby answers s (ground arith) in
            rw ready (elim (Bool-cases (is_waiting s.status)) [
              | inl lobby ↦ rw lobby (
                  provision_claimed-IsReady answers st s now found lobby full
                    (rw lobby at (rw ready at h')))
              | inr other ↦
                  let taken : is_provisioning s.status ≡ true = elim kind [
                    | inl w ↦ cc
                    | inr p ↦ p
                  ] in
                  rw other (
                    provision-IsReady answers st s now found taken full
                      (rw other at (rw ready at h')))
            ])
      ])
