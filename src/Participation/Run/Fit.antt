-- ===== src/Participation/Run/Fit.antt =====
-- When an arrival fits its outcome, and what keeps it so.
use gdm_platform.Common.{
  ℕ, Text, Text-eq, Option, none, some, Bool, true, false, ◌≡◌, ◌≢◌, refl, arith, get, AllEntries,
  put-AllEntries, get-AllEntries, is_some, if◌then◌else◌,
}
use gdm_platform.Shared.Models.{
  ProlificArrival, ParticipationStage, ParticipationOutcome, CompensationKind,
}
use gdm_platform.Participation.Endings.{EndedOutcome, TerminationCompensation, kind_of, outcome_of}
use gdm_platform.Participation.Rules.{Termination, arrival_key, terminate_arrival}
use gdm_platform.Participation.State.{
  ParticipationState, Milestone, is_active_stage, set_arrival, advance, stage_of,
}

-- An open arrival is in an active stage and has no compensation; a completed one is done and fully
-- paid; any other ending is terminated and never fully paid.
abbrev pub Fits : Option ParticipationOutcome → ProlificArrival → Type 0
Fits none a = (is_active_stage a.stage ≡ true) × (a.compensation_kind ≡ none) × (a.ended_at ≡ none)
Fits (some ParticipationOutcome.completed) a =
    (a.stage ≡ ParticipationStage.done)
    × (a.compensation_kind ≡ some CompensationKind.full)
    × (is_some a.ended_at ≡ true)
Fits (some _) a =
    (a.stage ≡ ParticipationStage.terminated)
    × (a.compensation_kind ≢ some CompensationKind.full)
    × (is_some a.ended_at ≡ true)

-- The arrival is filed under its own key, and fits its outcome.
abbrev pub IsConsistent : Text → ProlificArrival → Type 0
IsConsistent key a = (key ≡ arrival_key a.identity) × Fits a.outcome a

abbrev pub Consistent : ParticipationState → Type 0
Consistent st = AllEntries IsConsistent st.prolific_arrivals

pub set-Consistent :
    (st : ParticipationState) (key : Text) (a : ProlificArrival)
    → IsConsistent key a
    → Consistent st
    → Consistent (set_arrival st key a)
set-Consistent st key a p h = put-AllEntries IsConsistent key a st.prolific_arrivals p h

stage_of-active : (m : Milestone) → is_active_stage (stage_of m) ≡ true
stage_of-active Milestone.arrived = refl
stage_of-active _ = refl

advance-Fits :
    (a : ProlificArrival) (m : Milestone) (now : ℕ)
    → a.outcome ≡ none
    → Fits a.outcome a
    → Fits (advance a (stage_of m) now).outcome (advance a (stage_of m) now)
unfolding advance
advance-Fits a m now o h = ground (arith, stage_of-active m)

pub advance-IsConsistent :
    (key : Text) (a : ProlificArrival) (m : Milestone) (now : ℕ)
    → a.outcome ≡ none
    → IsConsistent key a
    → IsConsistent key (advance a (stage_of m) now)
unfolding advance
advance-IsConsistent key a m now o h = (ground arith, advance-Fits a m now o h.1)

kind_of-ne-full : (k : TerminationCompensation) → some (kind_of k) ≢ some CompensationKind.full
kind_of-ne-full TerminationCompensation.none = cc
kind_of-ne-full TerminationCompensation.partial = cc
kind_of-ne-full TerminationCompensation.manual_review = cc

terminate-Fits :
    (a : ProlificArrival) (now : ℕ) (t : Termination)
    → Fits (terminate_arrival a now t).outcome (terminate_arrival a now t)
unfolding terminate_arrival
terminate-Fits a now t = fits t.outcome
  where
    fits : (o : EndedOutcome) → Fits (some (outcome_of o)) (terminate_arrival a now t)
    fits EndedOutcome.declined_consent = (refl, kind_of-ne-full t.compensation_kind, refl)
    fits _ = (refl, kind_of-ne-full t.compensation_kind, refl)

pub terminate-IsConsistent :
    (key : Text) (a : ProlificArrival) (now : ℕ) (t : Termination)
    → IsConsistent key a
    → IsConsistent key (terminate_arrival a now t)
unfolding terminate_arrival
terminate-IsConsistent key a now t h = (h.0, terminate-Fits a now t)

-- An ending that is refused leaves the store as it is; one that is accepted is consistent.
pub ending-Consistent :
    {R : Type 0} (st : ParticipationState) (key : Text) (ended : ProlificArrival) (refused : Bool)
    (x y : R)
    → Consistent st
    → IsConsistent key ended
    → Consistent
        (if◌then◌else◌ {A = ParticipationState × R} refused (st, x) (set_arrival st key ended, y)).0
ending-Consistent st key ended true x y h p = h
ending-Consistent st key ended false x y h p = set-Consistent st key ended p h

pub fit_of_found :
    (st : ParticipationState) (key : Text) (a : ProlificArrival)
    → Consistent st
    → get key st.prolific_arrivals ≡ some a
    → IsConsistent key a
fit_of_found st key a h p = get-AllEntries IsConsistent key st.prolific_arrivals h p

-- What `recordProlificArrival` returns is stored under its key, in a consistent store.
