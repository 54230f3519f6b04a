-- ===== src/Store/Life/Writes/Steps.antt =====
-- Each write moves a session at most once.
use mathlib.Core.Path.{subst}
use gdm_platform.Common.{
  Text, Text-eq, List, [], ◌∷◌, some, true, ◌==◌, ==_iff, ◌&&◌, JsMap, get, put, get-put,
  map_values, get-map_values, any, find, is_some, ◌≡◌, refl, ap, ◌∙◌, arith, Bool-cases,
  Option-cases, inl, inr, or_else,
}
use gdm_platform.Shared.Timestamp.{Timestamp}
use gdm_platform.Shared.Models.{
  Session, SessionStatus, Participant, waiting, provisioning, running, completed, aborted, Answer,
}
use gdm_platform.Checkpoint.Merge.{merge_checkpoint_into_session}
use gdm_platform.Store.State.{StoreState}
use gdm_platform.Store.Lookup.{is_waiting, is_running}
use gdm_platform.Store.Seats.{
  has_id, change_seat, with_user, with_survey, with_answers, with_completion, with_participant,
  without_participant, remove_participant, status_of_roster, change_stored, add_participant,
  remove_participant_from_waiting_session, save_participant_survey, has_exit_survey,
  patch_exit_survey_answers, mark_participant_completed, set_participant_creds,
}
use gdm_platform.Store.Lifecycle.{
  lobby_status, claimed, is_provisioning, claim_session_provisioning, finish_session_provisioning,
  save_runtime_checkpoint, Aborting, aborts, abort_if_due, abort_lobbies,
}
use gdm_platform.Store.Life.Operations.{aborts-lobby}
use gdm_platform.Store.Life.Writes.{
  Write, claims, publishes, aborts_lobbies, seats, releases, saves_survey, patches_survey,
  marks_completed, sets_creds, saves_checkpoint, write, Moves, ◌⇝◌, stays, claim, publish, give_up,
  fail,
}

lobby-⇝ : (t : SessionStatus) → is_some (lobby_status t) ≡ true → t ⇝ aborted
lobby-⇝ waiting h = give_up
lobby-⇝ provisioning h = fail
lobby-⇝ running h = cc
lobby-⇝ completed h = cc
lobby-⇝ aborted h = cc

module _ {N : Type 0} where
  Moves-refl : (m : JsMap Text (Session N)) → Moves m m
  Moves-refl m id s p = (s, p, stays)

  put-Moves :
      (m : JsMap Text (Session N)) (id : Text) (s t : Session N)
      → get id m ≡ some s
      → s.status ⇝ t.status
      → Moves m (put id t m)
  put-Moves m id s t p move j r q = elim (Bool-cases (id == j)) [
    | inl hit ↦
        let same : id ≡ j = (==_iff id j).0 hit in
        let old : s ≡ r = ground (arith, p, q, ap (λ k. get k m) same) in
        (t, get-put j id t m ∙ rw hit refl, subst (λ x. x.status ⇝ t.status) old move)
    | inr miss ↦ (r, get-put j id t m ∙ rw miss q, stays)
  ]

  map_values-Moves :
      (f : Session N → Session N) (m : JsMap Text (Session N))
      → ((s : Session N) → s.status ⇝ (f s).status)
      → Moves m (map_values f m)
  map_values-Moves f m h id s p = (f s, get-map_values f id m p, h s)

  change_seat-Moves :
      (st : StoreState N) (session_id participant_id : Text) (f : Participant N → Participant N)
      → Moves st.sessions (change_seat st session_id participant_id f).0.sessions
  change_seat-Moves st session_id participant_id f =
      elim (Option-cases (get session_id st.sessions)) [
        | inl missing ↦ rw (missing, change_seat) (Moves-refl st.sessions)
        | inr (s, found) ↦ elim (Bool-cases (any (has_id participant_id) s.participants)) [
          | inl there ↦
              rw (found, change_seat) (rw there (put-Moves st.sessions session_id s _ found stays))
          | inr absent ↦ rw (found, change_seat) (rw absent (Moves-refl st.sessions))
        ]
      ]

  change_stored-Moves :
      (st : StoreState N) (id : Text) (f : Session N → Session N)
      → ((s : Session N) → s.status ⇝ (f s).status)
      → Moves st.sessions (or_else (change_stored st id f) st).sessions
  unfolding change_stored
  change_stored-Moves st id f h = elim (Option-cases (get id st.sessions)) [
    | inl missing ↦ rw (missing, change_stored) (Moves-refl st.sessions)
    | inr (s, found) ↦ rw (found, change_stored) (put-Moves st.sessions id s (f s) found (h s))
  ]

  claim-Moves :
      (st : StoreState N) (id : Text)
      → Moves st.sessions (claim_session_provisioning st id).0.sessions
  unfolding claim_session_provisioning
  claim-Moves st id = elim (Option-cases (get id st.sessions)) [
    | inl missing ↦ rw (missing, claim_session_provisioning) (Moves-refl st.sessions)
    | inr (s, found) ↦
        rw (found, claim_session_provisioning)
          (put-Moves st.sessions id s (record s { status = claimed s.status }) found
            (path s.status))
  ]
    where
      path : (t : SessionStatus) → t ⇝ claimed t
      path waiting = claim
      path provisioning = stays
      path running = stays
      path completed = stays
      path aborted = stays

  finish-Moves :
      (st : StoreState N) (id room_id : Text) (started_at : Timestamp)
      → Moves st.sessions (finish_session_provisioning st id room_id started_at).0.sessions
  unfolding finish_session_provisioning
  finish-Moves st id room_id started_at = elim (Option-cases (get id st.sessions)) [
    | inl missing ↦ rw (missing, finish_session_provisioning) (Moves-refl st.sessions)
    | inr (s, found) ↦
        rw (found, finish_session_provisioning)
          (elim (Bool-cases (is_running s.status)) [
            | inl runs ↦ rw runs (Moves-refl st.sessions)
            | inr rests ↦ rw rests (elim (Bool-cases (is_provisioning s.status)) [
              | inl ready ↦ rw ready (put-Moves st.sessions id s _ found (path s.status ready))
              | inr other ↦ rw other (Moves-refl st.sessions)
            ])
          ])
  ]
    where
      path : (t : SessionStatus) → is_provisioning t ≡ true → t ⇝ running
      path provisioning h = publish
      path waiting h = cc
      path running h = cc
      path completed h = cc
      path aborted h = cc

  abort_if_due-moves :
      (aborting : Aborting) (s : Session N) → s.status ⇝ (abort_if_due aborting s).status
  unfolding abort_if_due
  abort_if_due-moves aborting s = elim (Bool-cases (is_some (aborts aborting s))) [
    | inl due ↦ rw due (lobby-⇝ s.status (aborts-lobby aborting s due))
    | inr kept ↦ rw kept stays
  ]

  with_participant-moves :
      (s : Session N) (p : Participant N) → s.status ⇝ (with_participant s p).status
  unfolding with_participant
  with_participant-moves s p = elim (Bool-cases (any (has_id p.id) s.participants)) [
    | inl there ↦ rw there stays
    | inr new ↦ rw new stays
  ]

  status_of_roster-moves :
      (ps : List (Participant N)) (t : SessionStatus)
      → is_waiting t ≡ true
      → t ⇝ status_of_roster ps t
  status_of_roster-moves [] waiting h = give_up
  status_of_roster-moves [] provisioning h = cc
  status_of_roster-moves [] running h = cc
  status_of_roster-moves [] completed h = cc
  status_of_roster-moves [] aborted h = cc
  status_of_roster-moves (p ∷ ps) t h = stays

  release-Moves :
      (st : StoreState N) (session_id participant_id : Text)
      → Moves st.sessions
          (remove_participant_from_waiting_session st session_id participant_id).0.sessions
  unfolding remove_participant_from_waiting_session without_participant
  release-Moves st session_id participant_id = elim (Option-cases (get session_id st.sessions)) [
    | inl missing ↦ rw (missing, remove_participant_from_waiting_session) (Moves-refl st.sessions)
    | inr (s, found) ↦
        elim (Bool-cases (is_waiting s.status && any (has_id participant_id) s.participants)) [
          | inl there ↦
              rw (found, remove_participant_from_waiting_session)
                (rw there (
                  put-Moves st.sessions session_id s (without_participant s participant_id) found (
                    status_of_roster-moves (remove_participant participant_id s.participants)
                      s.status (ground arith))))
          | inr absent ↦
              rw (found, remove_participant_from_waiting_session)
                (rw absent (Moves-refl st.sessions))
        ]
  ]

  patch-Moves :
      (st : StoreState N) (session_id participant_id : Text) (patch : JsMap Text (Answer N))
      → Moves st.sessions (patch_exit_survey_answers st session_id participant_id patch).0.sessions
  unfolding patch_exit_survey_answers
  patch-Moves st session_id participant_id patch =
      elim (Option-cases (get session_id st.sessions)) [
        | inl missing ↦ rw (missing, patch_exit_survey_answers) (Moves-refl st.sessions)
        | inr (s, found) ↦
            elim (Bool-cases (has_exit_survey (find (has_id participant_id) s.participants))) [
              | inl filled ↦
                  rw (found, patch_exit_survey_answers)
                    (rw filled
                      (change_seat-Moves st session_id participant_id (with_answers patch)))
              | inr unfilled ↦
                  rw (found, patch_exit_survey_answers) (rw unfilled (Moves-refl st.sessions))
            ]
      ]

  pub write-Moves : (st : StoreState N) (w : Write N) → Moves st.sessions (write st w).sessions
  unfolding write abort_lobbies add_participant save_participant_survey mark_participant_completed
      set_participant_creds save_runtime_checkpoint merge_checkpoint_into_session
  write-Moves st (claims id) = claim-Moves st id
  write-Moves st (publishes id room_id started_at) = finish-Moves st id room_id started_at
  write-Moves st (aborts_lobbies aborting) =
      map_values-Moves (abort_if_due aborting) st.sessions (abort_if_due-moves aborting)
  write-Moves st (seats session_id participant) =
      change_stored-Moves st session_id (λ s. with_participant s participant)
        (λ s. with_participant-moves s participant)
  write-Moves st (releases session_id participant_id) = release-Moves st session_id participant_id
  write-Moves st (saves_survey session_id participant_id kind survey) =
      change_seat-Moves st session_id participant_id (with_survey kind survey)
  write-Moves st (patches_survey session_id participant_id patch) =
      patch-Moves st session_id participant_id patch
  write-Moves st (marks_completed session_id participant_id completed_at) =
      change_seat-Moves st session_id participant_id (with_completion completed_at)
  write-Moves st (sets_creds participant_id creds) =
      map_values-Moves (with_user participant_id creds.user_id) st.sessions (λ s. stays)
  write-Moves st (saves_checkpoint session_id checkpoint) =
      change_stored-Moves st session_id (λ s. merge_checkpoint_into_session s checkpoint)
        (λ s. stays)
