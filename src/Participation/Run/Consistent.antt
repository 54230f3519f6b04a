-- ===== src/Participation/Run/Consistent.antt =====
-- Stage, outcome and compensation of every stored arrival agree.
use gdm_platform.Common.{
  ℕ, Text, Text-eq, List, [], ◌∷◌, Option, none, some, ◌≡◌, refl, get, is_some, if◌then◌else◌,
  Option-cases, inl, inr,
}
use gdm_platform.Shared.Models.{
  ProlificIdentity, ProlificArrival, ParticipationOutcome, ProlificActionStatus,
}
use gdm_platform.Participation.Rules.{Termination, arrival_key, terminate_arrival}
use gdm_platform.Participation.State.{
  ParticipationState, Milestone, set_arrival, advance, record_prolific_arrival,
  record_participation_stage, new_arrival, stage_of,
}
use gdm_platform.Participation.Store.{
  complete_arrival, terminate_prolific_participation, terminate_stale_prolific_participation,
  complete_prolific_participation,
}
use gdm_platform.Participation.Actions.{
  ActionPatch, mark_prolific_action, link_prolific_arrival, set_status, patched,
  get_participation_outcome_by_id,
}
use gdm_platform.Participation.Run.{
  Call, arrives, reaches, terminates, times_out, completes, marks, links, step, run,
}
use gdm_platform.Participation.Run.Fit.{
  Fits, IsConsistent, Consistent, set-Consistent, advance-IsConsistent, terminate-IsConsistent,
  ending-Consistent, fit_of_found,
}

pub record-found :
    (st : ParticipationState) (identity : ProlificIdentity) (now : ℕ)
    → Consistent st
    → let r = record_prolific_arrival st identity now in
      Consistent r.0 × IsConsistent (arrival_key identity) r.1
unfolding record_prolific_arrival new_arrival
record-found st identity now h =
    elim (Option-cases (get (arrival_key identity) st.prolific_arrivals)) [
      | inl missing ↦
          rw (missing, record_prolific_arrival)
            (set-Consistent st (arrival_key identity) (new_arrival identity now) fits h, fits)
      | inr (a, found) ↦
          rw (found, record_prolific_arrival) (h, fit_of_found st (arrival_key identity) a h found)
    ]
  where
    fits : IsConsistent (arrival_key identity) (new_arrival identity now)
    fits = (refl, (refl, refl, refl))

-- An operation that changes the recorded arrival only while it has no outcome.
unless_ended :
    {R : Type 0} (st : ParticipationState) (key : Text) (a next : ProlificArrival) (x y : R)
    → Consistent st
    → (a.outcome ≡ none → IsConsistent key next)
    → Consistent
        (if◌then◌else◌ {A = ParticipationState × R}
          (is_some a.outcome)
          (st, x)
          (set_arrival st key next, y)).0
unless_ended st key a next x y h p = elim (Option-cases a.outcome) [
  | inl open_ ↦ rw open_ (set-Consistent st key next (p open_) h)
  | inr (o, ended) ↦ rw ended h
]

reaches-Consistent :
    (st : ParticipationState) (identity : ProlificIdentity) (m : Milestone) (now : ℕ)
    → Consistent st
    → Consistent (record_participation_stage st identity m now).0
unfolding record_participation_stage
reaches-Consistent st identity m now h =
    let r = record_prolific_arrival st identity now in
    let (stored, fits) = record-found st identity now h in
    let key = arrival_key identity in
    unless_ended r.0 key r.1 (advance r.1 (stage_of m) now) _ _ stored
      (λ open_. advance-IsConsistent key r.1 m now open_ fits)

terminates-Consistent :
    (st : ParticipationState) (identity : ProlificIdentity) (t : Termination) (now : ℕ)
    → Consistent st
    → Consistent (terminate_prolific_participation st identity t now).0
unfolding terminate_prolific_participation
terminates-Consistent st identity t now h =
    let r = record_prolific_arrival st identity now in
    let (stored, fits) = record-found st identity now h in
    let key = arrival_key identity in
    unless_ended r.0 key r.1 (terminate_arrival r.1 now t) _ _ stored
      (λ _. terminate-IsConsistent key r.1 now t fits)

completes-Consistent :
    (st : ParticipationState) (identity : ProlificIdentity) (now : ℕ)
    → Consistent st
    → Consistent (complete_prolific_participation st identity now).0
unfolding complete_prolific_participation
completes-Consistent st identity now h =
    let r = record_prolific_arrival st identity now in
    let (stored, fits) = record-found st identity now h in
    let key = arrival_key identity in
    unless_ended r.0 key r.1 (complete_arrival r.1 now) _ _ stored
      (λ _. (fits.0, (refl, refl, refl)))

times_out-Consistent :
    (st : ParticipationState) (identity : ProlificIdentity) (cutoff : ℕ) (t : Termination) (now : ℕ)
    → Consistent st
    → Consistent (terminate_stale_prolific_participation st identity cutoff t now).0
unfolding terminate_stale_prolific_participation
times_out-Consistent st identity cutoff t now h =
    elim (Option-cases (get (arrival_key identity) st.prolific_arrivals)) [
      | inl missing ↦ rw (missing, terminate_stale_prolific_participation) h
      | inr (a, found) ↦
          let key = arrival_key identity in
          rw (found, terminate_stale_prolific_participation)
            (ending-Consistent st key (terminate_arrival a now t) _ _ _ h
              (terminate-IsConsistent key a now t (fit_of_found st key a h found)))
    ]

Fits-link :
    (o : Option ParticipationOutcome) (a : ProlificArrival) (p : Option Text)
    → Fits o a
    → Fits o (record a { participant_record_id = p })
Fits-link none a p h = h
Fits-link (some ParticipationOutcome.completed) a p h = h
Fits-link (some _) a p h = h

Fits-status :
    (o : Option ParticipationOutcome) (a : ProlificArrival) (s : Option ProlificActionStatus)
    → Fits o a
    → Fits o (record a { prolific_action_status = s })
Fits-status none a s h = h
Fits-status (some ParticipationOutcome.completed) a s h = h
Fits-status (some _) a s h = h

links-Consistent :
    (st : ParticipationState) (identity : ProlificIdentity) (participant : Text)
    → Consistent st
    → Consistent (link_prolific_arrival st identity participant)
unfolding link_prolific_arrival
links-Consistent st identity participant h =
    let key = arrival_key identity in
    elim (Option-cases (get key st.prolific_arrivals)) [
      | inl missing ↦ rw (missing, link_prolific_arrival) h
      | inr (a, found) ↦
          let fits = fit_of_found st key a h found in
          rw (found, link_prolific_arrival)
            (set-Consistent st key (record a { participant_record_id = some participant })
              (fits.0, Fits-link a.outcome a (some participant) fits.1) h)
    ]

set_status-Consistent :
    (st : ParticipationState) (identity : ProlificIdentity) (status : ProlificActionStatus)
    → Consistent st
    → Consistent (set_status st identity status)
unfolding set_status
set_status-Consistent st identity status h =
    let key = arrival_key identity in
    elim (Option-cases (get key st.prolific_arrivals)) [
      | inl missing ↦ rw (missing, set_status) h
      | inr (a, found) ↦
          let fits = fit_of_found st key a h found in
          rw (found, set_status)
            (set-Consistent st key (record a { prolific_action_status = some status })
              (fits.0, Fits-status a.outcome a (some status) fits.1) h)
    ]

pub marks-Consistent :
    (st : ParticipationState) (id : Text) (patch : ActionPatch)
    → Consistent st
    → Consistent (mark_prolific_action st id patch)
unfolding mark_prolific_action
marks-Consistent st id patch h = elim (Option-cases (get_participation_outcome_by_id st id)) [
  | inl missing ↦ rw (missing, mark_prolific_action) h
  | inr (row, known) ↦
      rw (known, mark_prolific_action)
        (set_status-Consistent (patched st id patch) row.arrival.identity patch.status h)
]

pub step-Consistent :
    (st : ParticipationState) (call : ℕ × Call) → Consistent st → Consistent (step st call)
unfolding step
step-Consistent st (now, arrives identity) h = (record-found st identity now h).0
step-Consistent st (now, reaches identity m) h = reaches-Consistent st identity m now h
step-Consistent st (now, terminates identity t) h = terminates-Consistent st identity t now h
step-Consistent st (now, times_out identity cutoff t) h =
    times_out-Consistent st identity cutoff t now h
step-Consistent st (now, completes identity) h = completes-Consistent st identity now h
step-Consistent st (now, marks id patch) h = marks-Consistent st id patch h
step-Consistent st (now, links identity participant) h = links-Consistent st identity participant h

-- After any sequence of calls on a consistent store, every arrival is filed under its own key; if
-- it is open, its stage is active and nothing is paid; if it is completed, it is done and fully
-- paid; if it ended otherwise, it is terminated and not fully paid.
pub run-Consistent :
    (st : ParticipationState) (calls : List (ℕ × Call)) → Consistent st → Consistent (run st calls)
unfolding run
run-Consistent st [] h = h
run-Consistent st (call ∷ calls) h = run-Consistent (step st call) calls (step-Consistent st call h)
