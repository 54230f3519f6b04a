-- ===== src/Store/Life/Rosters.antt =====
-- The operations on the seats of a session let the sessions grow along the diagram.
use gdm_platform.Common.{
  Text, Text-eq, List, [], ◌∷◌, true, ◌&&◌, JsMap, get, any, find, ◌≡◌, refl, ap, arith, Bool-cases,
  Option-cases, inl, inr, length, ◌≤◌,
}
use gdm_platform.Shared.Timestamp.{Timestamp}
use gdm_platform.Shared.Models.{
  Session, SessionStatus, Participant, waiting, provisioning, running, completed, aborted, Answer,
  Survey,
}
use gdm_platform.Store.State.{StoreState, MatrixCreds}
use gdm_platform.Store.Lookup.{is_waiting}
use gdm_platform.Store.Seats.{
  has_id, change_participant, change_seat, with_user, with_survey, with_answers, with_completion,
  without_participant, remove_participant, status_of_roster,
  remove_participant_from_waiting_session, save_participant_survey, has_exit_survey,
  patch_exit_survey_answers, mark_participant_completed, set_participant_creds, SurveyKind,
}
use gdm_platform.Store.Life.{◌⟶*◌, here, give_up, ⟶*-one, ids, IsRosterOf, Follows, Follows-same}
use gdm_platform.Store.Life.Growth.{IsFiled, Grown, Grown-refl, put-Grown, map_values-Grown}

module _ {N : Type 0} where
  ids-change_participant :
      (id : Text) (f : Participant N → Participant N) (ps : List (Participant N))
      → ((p : Participant N) → (f p).id ≡ p.id)
      → ids (change_participant id f ps) ≡ ids ps
  ids-change_participant id f [] h = refl
  ids-change_participant id f (p ∷ ps) h = elim (Bool-cases (has_id id p)) [
    | inl hit ↦ rw hit (ap (λ i. i ∷ ids ps) (h p))
    | inr miss ↦ rw miss (ap (◌∷◌ p.id) (ids-change_participant id f ps h))
  ]

  -- Only the roster changes, and it keeps its identifiers.
  pub Follows-roster :
      (s : Session N) (ps : List (Participant N))
      → IsRosterOf s ps
      → Follows s (record s { participants = ps })
  Follows-roster s ps h =
      Follows-same s (record s { participants = ps }) here h (refl, refl, refl) (refl, refl)

  pub change_seat-Grown :
      (st : StoreState N) (session_id participant_id : Text) (f : Participant N → Participant N)
      → ((p : Participant N) → (f p).id ≡ p.id)
      → IsFiled st.sessions
      → Grown st.sessions (change_seat st session_id participant_id f).0.sessions
  change_seat-Grown st session_id participant_id f h w =
      elim (Option-cases (get session_id st.sessions)) [
        | inl missing ↦ rw (missing, change_seat) (Grown-refl st.sessions w)
        | inr (s, found) ↦ elim (Bool-cases (any (has_id participant_id) s.participants)) [
          | inl there ↦
              rw (found, change_seat)
                (rw there (
                  put-Grown st.sessions session_id s
                    (record s { participants = change_participant participant_id f s.participants })
                    w found
                    (Follows-roster s (change_participant participant_id f s.participants)
                      (inl (ids-change_participant participant_id f s.participants h)))))
          | inr absent ↦ rw (found, change_seat) (rw absent (Grown-refl st.sessions w))
        ]
      ]

  pub save_participant_survey-Grown :
      (st : StoreState N) (session_id participant_id : Text) (kind : SurveyKind) (survey : Survey N)
      → IsFiled st.sessions
      → Grown st.sessions
          (save_participant_survey st session_id participant_id kind survey).0.sessions
  unfolding save_participant_survey
  save_participant_survey-Grown st session_id participant_id kind survey w =
      change_seat-Grown st session_id participant_id (with_survey kind survey) (same kind) w
    where
      same : (k : SurveyKind) (p : Participant N) → (with_survey k survey p).id ≡ p.id
      same SurveyKind.entry p = refl
      same SurveyKind.exit p = refl

  pub mark_participant_completed-Grown :
      (st : StoreState N) (session_id participant_id : Text) (t : Timestamp)
      → IsFiled st.sessions
      → Grown st.sessions (mark_participant_completed st session_id participant_id t).0.sessions
  unfolding mark_participant_completed
  mark_participant_completed-Grown st session_id participant_id t w =
      change_seat-Grown st session_id participant_id (with_completion t) (λ p. refl) w

  pub patch_exit_survey_answers-Grown :
      (st : StoreState N) (session_id participant_id : Text) (patch : JsMap Text (Answer N))
      → IsFiled st.sessions
      → Grown st.sessions (patch_exit_survey_answers st session_id participant_id patch).0.sessions
  unfolding patch_exit_survey_answers
  patch_exit_survey_answers-Grown st session_id participant_id patch w =
      elim (Option-cases (get session_id st.sessions)) [
        | inl missing ↦ rw (missing, patch_exit_survey_answers) (Grown-refl st.sessions w)
        | inr (s, found) ↦
            elim (Bool-cases (has_exit_survey (find (has_id participant_id) s.participants))) [
              | inl filled ↦
                  rw (found, patch_exit_survey_answers)
                    (rw filled
                      (change_seat-Grown st session_id participant_id (with_answers patch) same w))
              | inr unfilled ↦
                  rw (found, patch_exit_survey_answers) (rw unfilled (Grown-refl st.sessions w))
            ]
      ]
    where
      same : (p : Participant N) → (with_answers patch p).id ≡ p.id
      same p = elim (Option-cases p.exit_survey) [
        | inl o ↦ rw (o, with_answers) refl
        | inr (v, o) ↦ rw (o, with_answers) refl
      ]

  pub set_participant_creds-Grown :
      (st : StoreState N) (participant_id : Text) (creds : MatrixCreds)
      → IsFiled st.sessions
      → Grown st.sessions (set_participant_creds st participant_id creds).sessions
  unfolding set_participant_creds
  set_participant_creds-Grown st participant_id creds w =
      map_values-Grown (with_user participant_id creds.user_id) st.sessions
        (λ s.
          Follows-roster s _
            (inl (ids-change_participant participant_id _ s.participants (λ p. refl))))
        w

  status_of_roster-⟶* :
      (ps : List (Participant N)) (t : SessionStatus)
      → is_waiting t ≡ true
      → t ⟶* status_of_roster ps t
  status_of_roster-⟶* [] waiting h = ⟶*-one give_up
  status_of_roster-⟶* [] provisioning h = cc
  status_of_roster-⟶* [] running h = cc
  status_of_roster-⟶* [] completed h = cc
  status_of_roster-⟶* [] aborted h = cc
  status_of_roster-⟶* (p ∷ ps) t h = here

  length-remove :
      (id : Text) (ps : List (Participant N)) → length (remove_participant id ps) ≤ length ps
  length-remove id [] = omega arith
  length-remove id (p ∷ ps) = elim (Bool-cases (has_id id p)) [
    | inl hit ↦ rw hit (omega arith)
    | inr miss ↦ rw miss (omega (arith, length-remove id ps))
  ]

  without_participant-Follows :
      (s : Session N) (participant_id : Text)
      → is_waiting s.status ≡ true
      → Follows s (without_participant s participant_id)
  unfolding without_participant
  without_participant-Follows s participant_id h =
      Follows-same s (without_participant s participant_id)
        (status_of_roster-⟶* (remove_participant participant_id s.participants) s.status h)
        (inr (h, omega (arith, length-remove participant_id s.participants))) (refl, refl, refl)
        (refl, refl)

  pub remove_participant-Grown :
      (st : StoreState N) (session_id participant_id : Text)
      → IsFiled st.sessions
      → Grown st.sessions
          (remove_participant_from_waiting_session st session_id participant_id).0.sessions
  unfolding remove_participant_from_waiting_session
  remove_participant-Grown st session_id participant_id w =
      elim (Option-cases (get session_id st.sessions)) [
        | inl missing ↦
            rw (missing, remove_participant_from_waiting_session) (Grown-refl st.sessions w)
        | inr (s, found) ↦
            elim (Bool-cases (is_waiting s.status && any (has_id participant_id) s.participants)) [
              | inl there ↦
                  rw (found, remove_participant_from_waiting_session)
                    (rw there (
                      put-Grown st.sessions session_id s (without_participant s participant_id) w
                        found (without_participant-Follows s participant_id (ground arith))))
              | inr absent ↦
                  rw (found, remove_participant_from_waiting_session)
                    (rw absent (Grown-refl st.sessions w))
            ]
      ]
