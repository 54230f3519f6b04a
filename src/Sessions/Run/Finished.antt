-- ===== src/Sessions/Run/Finished.antt =====
-- The sessions under the completions and checkpoints of sessions.service.ts.
use Prim.Native.Nat.{ℕ}
use mathlib.Core.Path.{subst}
use gdm_platform.Common.{
  Text, Text-eq, text, [], ◌∷◌, Option, none, some, false, get, or_else, ◌≡◌, refl, sym, ap, ◌∙◌,
  inl, inr, Bool-cases, Option-cases, find, is_some,
}
use gdm_platform.Shared.Models.{
  Session, SessionStatus, Participant, Answer, waiting, provisioning, running, completed, aborted,
}
use gdm_platform.Shared.Dto.{CheckpointSessionRequest}
use gdm_platform.Shared.Timestamp.{to_iso}
use gdm_platform.Store.State.{StoreState}
use gdm_platform.Store.Rounds.{is_aborted}
use gdm_platform.Store.Lookup.{get_session}
use gdm_platform.Store.Seats.{has_id, patch_exit_survey_answers}
use gdm_platform.Store.Lifecycle.{update_session_lifecycle, save_runtime_checkpoint}
use gdm_platform.Store.Life.{◌⟶*◌, close, close_lobby, close_claimed, here, ⟶*-one}
use gdm_platform.Store.Life.Growth.{IsFiled, Grown, Grown-refl, Grown-trans, Grown-to}
use gdm_platform.Store.Life.Operations.{update-Grown, save_runtime_checkpoint-Grown}
use gdm_platform.Store.Life.Rosters.{
  mark_participant_completed-Grown, patch_exit_survey_answers-Grown,
}
use gdm_platform.Sessions.State.{ServiceState, with_store}
use gdm_platform.Sessions.Completion.{
  is_over, completed_patch, after_update, complete_session, complete_seat, complete_participant,
  checkpoint_session, close_finalized, finalize_session, has_ended, submit_debrief_feedback,
}

close-⟶* : (t : SessionStatus) → is_aborted t ≡ false → t ⟶* completed
close-⟶* waiting h = ⟶*-one close_lobby
close-⟶* provisioning h = ⟶*-one close_claimed
close-⟶* running h = ⟶*-one close
close-⟶* completed h = here
close-⟶* aborted h = cc

module _ {N : Type 0} where
  after_update-store :
      (st : ServiceState N) (id : Text) (o : Option (StoreState N))
      → (after_update st id o).0.store ≡ or_else o st.store
  after_update-store st id none = refl
  after_update-store st id (some store) = elim (Option-cases (get_session store id)) [
    | inl missing ↦ rw (missing, after_update) refl
    | inr (s, found) ↦ rw (found, after_update) refl
  ]

  -- A session that is not aborted is completed.
  complete-Grown :
      (st : ServiceState N) (id : Text) (now : ℕ) (s : Session N)
      → IsFiled st.store.sessions
      → get id st.store.sessions ≡ some s
      → is_aborted s.status ≡ false
      → Grown st.store.sessions
          (after_update st id
            (update_session_lifecycle st.store id (completed_patch now))).0.store.sessions
  complete-Grown st id now s w found h =
      Grown-to
        (ap (λ (x : StoreState N). x.sessions)
          (sym (
            after_update-store st id (update_session_lifecycle st.store id (completed_patch now)))))
        (update-Grown st.store id (completed_patch now) w (λ t q.
          let same : s ≡ t = ap (λ o. or_else o s) (sym found ∙ q) in
          subst (λ (x : Session N). x.status ⟶* completed) same (close-⟶* s.status h)))

  pub complete_session-Grown :
      (st : ServiceState N) (id : Text) (now : ℕ)
      → IsFiled st.store.sessions
      → Grown st.store.sessions (complete_session st id now).0.store.sessions
  unfolding complete_session get_session
  complete_session-Grown st id now w = elim (Option-cases (get id st.store.sessions)) [
    | inl missing ↦ rw (missing, complete_session) (Grown-refl st.store.sessions w)
    | inr (s, found) ↦
        rw (found, complete_session)
          (elim (Bool-cases (is_over s.status)) [
            | inl over ↦ rw over (Grown-refl st.store.sessions w)
            | inr open_ ↦ rw open_ (complete-Grown st id now s w found (not_aborted s.status open_))
          ])
  ]
    where
      not_aborted : (t : SessionStatus) → is_over t ≡ false → is_aborted t ≡ false
      not_aborted waiting h = refl
      not_aborted provisioning h = refl
      not_aborted running h = refl
      not_aborted completed h = refl
      not_aborted aborted h = cc

  close_finalized-Grown :
      (st : ServiceState N) (id : Text) (now : ℕ)
      → IsFiled st.store.sessions
      → Grown st.store.sessions (close_finalized st id now).0.store.sessions
  unfolding close_finalized get_session
  close_finalized-Grown st id now w = elim (Option-cases (get id st.store.sessions)) [
    | inl missing ↦ rw (missing, close_finalized) (Grown-refl st.store.sessions w)
    | inr (s, found) ↦
        rw (found, close_finalized)
          (elim (Bool-cases (is_aborted s.status)) [
            | inl over ↦ rw over (Grown-refl st.store.sessions w)
            | inr open_ ↦ rw open_ (complete-Grown st id now s w found open_)
          ])
  ]

  pub checkpoint_session-Grown :
      (st : ServiceState N) (id : Text) (checkpoint : CheckpointSessionRequest N)
      → IsFiled st.store.sessions
      → Grown st.store.sessions (checkpoint_session st id checkpoint).0.store.sessions
  unfolding checkpoint_session
  checkpoint_session-Grown st id checkpoint w =
      let merged = save_runtime_checkpoint-Grown st.store id checkpoint w in
      elim (Option-cases (save_runtime_checkpoint st.store id checkpoint)) [
        | inl missing ↦ rw (missing, checkpoint_session) (Grown-refl st.store.sessions w)
        | inr (store, found) ↦ rw (found, checkpoint_session) (rw found at merged)
      ]

  pub finalize_session-Grown :
      (st : ServiceState N) (id : Text) (checkpoint : CheckpointSessionRequest N) (now : ℕ)
      → IsFiled st.store.sessions
      → Grown st.store.sessions (finalize_session st id checkpoint now).0.store.sessions
  unfolding finalize_session
  finalize_session-Grown st id checkpoint now w =
      let merged = save_runtime_checkpoint-Grown st.store id checkpoint w in
      elim (Option-cases (save_runtime_checkpoint st.store id checkpoint)) [
        | inl missing ↦ rw (missing, finalize_session) (Grown-refl st.store.sessions w)
        | inr (store, found) ↦
            let grown : Grown st.store.sessions store.sessions = rw found at merged in
            rw (found, finalize_session)
              (Grown-trans grown (close_finalized-Grown (with_store st store) id now grown.filed))
      ]

  complete_seat-Grown :
      (st : ServiceState N) (session_id : Text) (p : Participant N) (now : ℕ)
      → IsFiled st.store.sessions
      → Grown st.store.sessions (complete_seat st session_id p now).0.store.sessions
  unfolding complete_seat
  complete_seat-Grown st session_id p now w = elim (Bool-cases (is_some p.completed_at)) [
    | inl marked ↦ rw marked (Grown-refl st.store.sessions w)
    | inr new ↦ rw new (mark_participant_completed-Grown st.store session_id p.id (to_iso now) w)
  ]

  pub complete_participant-Grown :
      (st : ServiceState N) (session_id participant_id : Text) (now : ℕ)
      → IsFiled st.store.sessions
      → Grown st.store.sessions
          (complete_participant st session_id participant_id now).0.store.sessions
  unfolding complete_participant get_session
  complete_participant-Grown st session_id participant_id now w =
      let unchanged = Grown-refl st.store.sessions w in
      elim (Option-cases (get session_id st.store.sessions)) [
        | inl missing ↦ rw (missing, complete_participant) unchanged
        | inr (s, found) ↦ elim (Option-cases (find (has_id participant_id) s.participants)) [
          | inl unknown_ ↦
              rw (found, complete_participant) (rw (unknown_, complete_participant) unchanged)
          | inr (p, seat) ↦
              rw (found, complete_participant)
                (rw (seat, complete_participant)
                  (elim (Bool-cases (is_some p.exit_survey)) [
                    | inr unfilled ↦ rw unfilled unchanged
                    | inl filled ↦
                        rw filled (elim (Bool-cases (has_ended st.participation p.prolific)) [
                          | inl over ↦ rw over unchanged
                          | inr open_ ↦ rw open_ (complete_seat-Grown st session_id p now w)
                        ])
                  ]))
        ]
      ]

  pub submit_debrief_feedback-Grown :
      (st : ServiceState N) (session_id participant_id feedback : Text)
      → IsFiled st.store.sessions
      → Grown st.store.sessions
          (submit_debrief_feedback st session_id participant_id feedback).0.store.sessions
  unfolding submit_debrief_feedback
  submit_debrief_feedback-Grown st session_id participant_id feedback w =
      let patch = (text "debriefFeedback", Answer.str feedback) ∷ [] in
      let grown = patch_exit_survey_answers-Grown st.store session_id participant_id patch w in
      elim (Bool-cases (patch_exit_survey_answers st.store session_id participant_id patch).1) [
        | inl patched ↦ rw (patched, submit_debrief_feedback) grown
        | inr missing ↦ rw (missing, submit_debrief_feedback) grown
      ]
