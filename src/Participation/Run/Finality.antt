-- ===== src/Participation/Run/Finality.antt =====
-- Outcomes are final and journeys only move forward, whatever calls follow.
use gdm_platform.Common.{
  ℕ, Text, Text-eq, List, [], ◌∷◌, Option, none, some, Bool, true, false, ◌≡◌, ◌≤◌, refl, arith,
  get, is_some, if◌then◌else◌, Option-cases, inl, inr, ◌||◌,
}
use gdm_platform.Shared.Models.{
  ProlificIdentity, ProlificArrival, ParticipationStage, ParticipationOutcome, ProlificActionStatus,
}
use gdm_platform.Participation.Rules.{Termination, arrival_key, terminate_arrival, stage_index}
use gdm_platform.Participation.State.{
  ParticipationState, Milestone, is_active_stage, set_arrival, advance, record_prolific_arrival,
  record_participation_stage, stage_of,
}
use gdm_platform.Participation.Store.{
  complete_arrival, terminate_prolific_participation, terminate_stale_prolific_participation,
  complete_prolific_participation,
}
use gdm_platform.Participation.Actions.{
  ActionPatch, mark_prolific_action, link_prolific_arrival, set_status, patched,
  get_participation_outcome_by_id,
}
use gdm_platform.Participation.Run.{
  Call, arrives, reaches, terminates, times_out, completes, marks, links, step, run,
}
use gdm_platform.Participation.Run.Consistent.{record-found, step-Consistent}
use gdm_platform.Participation.Run.Fit.{Consistent, Fits}
use gdm_platform.Participation.Run.Growth.{
  Evolves, Grows, Grows-refl, Grows-trans, set-Grows, record-Grows, unless_ended-Grows,
}

or-true : (b : Bool) → (b || true) ≡ true
or-true b = ground arith

or-false : (b : Bool) → (b || false) ≡ b
or-false b = ground arith

stage_index-le :
    (s : ParticipationStage) → stage_index s ≤ stage_index ParticipationStage.terminated
unfolding stage_index
stage_index-le ParticipationStage.arrived = omega arith
stage_index-le _ = omega arith

stage_index_of_active :
    (s : ParticipationStage)
    → is_active_stage s ≡ true
    → stage_index s ≤ stage_index ParticipationStage.done
unfolding stage_index
stage_index_of_active ParticipationStage.arrived h = omega arith
stage_index_of_active ParticipationStage.terminated h = cc
stage_index_of_active _ h = omega arith

not_ended : (o : Option ParticipationOutcome) → o ≡ none → is_some o ≡ true → ⊥
not_ended o p q = cc

advance-Evolves :
    (a : ProlificArrival) (s : ParticipationStage) (now : ℕ)
    → a.outcome ≡ none
    → Evolves a (advance a s now)
unfolding advance
advance-Evolves a s now open_ = record {
  identity = ground arith;
  arrived_at = ground arith;
  forward = ground arith;
  final = λ h. absurd (not_ended a.outcome open_ h);
}

terminate-Evolves :
    (a : ProlificArrival) (now : ℕ) (t : Termination)
    → a.outcome ≡ none
    → Evolves a (terminate_arrival a now t)
unfolding terminate_arrival
terminate-Evolves a now t open_ = record {
  identity = refl;
  arrived_at = refl;
  forward = stage_index-le a.stage;
  final = λ h. absurd (not_ended a.outcome open_ h);
}

complete-Evolves :
    (a : ProlificArrival) (now : ℕ)
    → Fits a.outcome a
    → a.outcome ≡ none
    → Evolves a (complete_arrival a now)
unfolding complete_arrival
complete-Evolves a now fits open_ = record {
  identity = refl;
  arrived_at = refl;
  forward = stage_index_of_active a.stage (active a.outcome open_ fits);
  final = λ h. absurd (not_ended a.outcome open_ h);
}
  where
    active :
        (o : Option ParticipationOutcome) → o ≡ none → Fits o a → is_active_stage a.stage ≡ true
    active none p h = h.0
    active (some o) p h = cc

reaches-Grows :
    (st : ParticipationState) (identity : ProlificIdentity) (m : Milestone) (now : ℕ)
    → Grows st (record_participation_stage st identity m now).0
unfolding record_participation_stage
reaches-Grows st identity m now =
    let r = record_prolific_arrival st identity now in
    let (grown, found) = record-Grows st identity now in
    Grows-trans st r.0 (record_participation_stage st identity m now).0 grown (
      unless_ended-Grows r.0 (arrival_key identity) r.1 (advance r.1 (stage_of m) now) _ _ found
        (advance-Evolves r.1 (stage_of m) now))

pub terminates-Grows :
    (st : ParticipationState) (identity : ProlificIdentity) (t : Termination) (now : ℕ)
    → Grows st (terminate_prolific_participation st identity t now).0
unfolding terminate_prolific_participation
terminates-Grows st identity t now =
    let r = record_prolific_arrival st identity now in
    let (grown, found) = record-Grows st identity now in
    Grows-trans st r.0 (terminate_prolific_participation st identity t now).0 grown (
      unless_ended-Grows r.0 (arrival_key identity) r.1 (terminate_arrival r.1 now t) _ _ found
        (terminate-Evolves r.1 now t))

completes-Grows :
    (st : ParticipationState) (identity : ProlificIdentity) (now : ℕ)
    → Consistent st
    → Grows st (complete_prolific_participation st identity now).0
unfolding complete_prolific_participation
completes-Grows st identity now h =
    let r = record_prolific_arrival st identity now in
    let (grown, found) = record-Grows st identity now in
    let (_, fits) = record-found st identity now h in
    Grows-trans st r.0 (complete_prolific_participation st identity now).0 grown (
      unless_ended-Grows r.0 (arrival_key identity) r.1 (complete_arrival r.1 now) _ _ found
        (complete-Evolves r.1 now fits.1))

claimed-Grows :
    {R : Type 0} (st : ParticipationState) (key : Text) (a next : ProlificArrival) (late : Bool)
    (x y : R)
    → get key st.prolific_arrivals ≡ some a
    → (a.outcome ≡ none → Evolves a next)
    → Grows st
        (if◌then◌else◌ {A = ParticipationState × R}
          (is_some a.outcome || late)
          (st, x)
          (set_arrival st key next, y)).0
claimed-Grows st key a next true x y found e = rw or-true (Grows-refl st)
claimed-Grows st key a next false x y found e =
    rw or-false (unless_ended-Grows st key a next x y found e)

times_out-Grows :
    (st : ParticipationState) (identity : ProlificIdentity) (cutoff : ℕ) (t : Termination) (now : ℕ)
    → Grows st (terminate_stale_prolific_participation st identity cutoff t now).0
unfolding terminate_stale_prolific_participation
times_out-Grows st identity cutoff t now =
    let key = arrival_key identity in
    elim (Option-cases (get key st.prolific_arrivals)) [
      | inl missing ↦ rw (missing, terminate_stale_prolific_participation) (Grows-refl st)
      | inr (a, found) ↦
          rw (found, terminate_stale_prolific_participation)
            (claimed-Grows st key a (terminate_arrival a now t) _ _ _ found
              (terminate-Evolves a now t))
    ]

links-Grows :
    (st : ParticipationState) (identity : ProlificIdentity) (participant : Text)
    → Grows st (link_prolific_arrival st identity participant)
unfolding link_prolific_arrival
links-Grows st identity participant =
    let key = arrival_key identity in
    elim (Option-cases (get key st.prolific_arrivals)) [
      | inl missing ↦ rw (missing, link_prolific_arrival) (Grows-refl st)
      | inr (a, found) ↦
          rw (found, link_prolific_arrival)
            (set-Grows st key a (record a { participant_record_id = some participant }) found
              (ground arith))
    ]

set_status-Grows :
    (st : ParticipationState) (identity : ProlificIdentity) (status : ProlificActionStatus)
    → Grows st (set_status st identity status)
unfolding set_status
set_status-Grows st identity status =
    let key = arrival_key identity in
    elim (Option-cases (get key st.prolific_arrivals)) [
      | inl missing ↦ rw (missing, set_status) (Grows-refl st)
      | inr (a, found) ↦
          rw (found, set_status)
            (set-Grows st key a (record a { prolific_action_status = some status }) found
              (ground arith))
    ]

marks-Grows :
    (st : ParticipationState) (id : Text) (patch : ActionPatch)
    → Grows st (mark_prolific_action st id patch)
unfolding mark_prolific_action
marks-Grows st id patch = elim (Option-cases (get_participation_outcome_by_id st id)) [
  | inl missing ↦ rw (missing, mark_prolific_action) (Grows-refl st)
  | inr (row, known) ↦
      rw (known, mark_prolific_action)
        (set_status-Grows (patched st id patch) row.arrival.identity patch.status)
]

step-Grows : (st : ParticipationState) (call : ℕ × Call) → Consistent st → Grows st (step st call)
unfolding step
step-Grows st (now, arrives identity) h = (record-Grows st identity now).0
step-Grows st (now, reaches identity m) h = reaches-Grows st identity m now
step-Grows st (now, terminates identity t) h = terminates-Grows st identity t now
step-Grows st (now, times_out identity cutoff t) h = times_out-Grows st identity cutoff t now
step-Grows st (now, completes identity) h = completes-Grows st identity now h
step-Grows st (now, marks id patch) h = marks-Grows st id patch
step-Grows st (now, links identity participant) h = links-Grows st identity participant

-- From a consistent store, whatever calls follow in whatever order: no arrival is lost or changes
-- its identity, its stage never moves back, and once it has an outcome, its stage, outcome,
-- reason, end and compensation never change again.
pub run-Grows :
    (st : ParticipationState) (calls : List (ℕ × Call)) → Consistent st → Grows st (run st calls)
unfolding run
run-Grows st [] h = Grows-refl st
run-Grows st (call ∷ calls) h =
    Grows-trans st (step st call) (run (step st call) calls) (step-Grows st call h)
      (run-Grows (step st call) calls (step-Consistent st call h))
