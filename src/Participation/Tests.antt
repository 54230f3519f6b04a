-- ===== src/Participation/Tests.antt =====
-- The participation store on a concrete submission.
use Prim.Native.Nat.{ℕ, ◌≤◌, ◌+◌}
use gdm_platform.Common.{text, Text-eq, List, [], ◌∷◌, ◌++◌, none, some, ◌≡◌, refl, arith}
use gdm_platform.Shared.Words.{is_space, count_words, count_words-append_space}
use gdm_platform.Shared.Models.{ProlificIdentity}
use gdm_platform.Participation.Endings.{TerminationCompensation, EndedOutcome}
use gdm_platform.Participation.Rules.{Termination}
use gdm_platform.Participation.Compensation.{
  EnvNumber, partial_payment_pence, partial_payment_min_pence, default_partial_payment_max_pence,
  at_least_minimum,
}
use gdm_platform.Participation.Compensation.Bounds.{partial_payment_bounds}
use gdm_platform.Participation.State.{ParticipationState, Milestone, record_participation_stage}
use gdm_platform.Participation.Store.{terminate_stale_prolific_participation}
use gdm_platform.Participation.Run.{Call, run}
use gdm_platform.Participation.Run.Consistent.{run-Consistent}
use gdm_platform.Participation.Run.Fit.{Consistent}
use gdm_platform.Participation.Run.Finality.{run-Grows}
use gdm_platform.Participation.Run.Growth.{Grows}
use gdm_platform.Participation.Run.Claims.{heartbeat_wins}

abbrev identity : ProlificIdentity
identity = record { participant_id = text "p1"; study_id = text "study"; session_id = text "sub1" }

abbrev empty : ParticipationState
empty = record { prolific_arrivals = []; memory_prolific_actions = [] }

abbrev timeout : Termination
timeout = record {
  outcome = EndedOutcome.connection_timeout;
  reason = text "no heartbeat";
  compensation_kind = TerminationCompensation.partial;
  compensation_amount_pence = some 50;
}

-- A participant who arrives and reaches the waiting room.
abbrev waiting : List (ℕ × Call)
waiting = (1000, Call.arrives identity) ∷ (2000, Call.reaches identity Milestone.waiting) ∷ []

-- The heartbeats end, and a late completion follows.
abbrev ending : List (ℕ × Call)
ending = (90000, Call.times_out identity 60000 timeout) ∷ (95000, Call.completes identity) ∷ []

run-Consistent_example : Consistent (run empty (waiting ++ ending))
run-Consistent_example = run-Consistent empty (waiting ++ ending) tt

run-Grows_example : Grows (run empty waiting) (run (run empty waiting) ending)
run-Grows_example = run-Grows (run empty waiting) ending (run-Consistent empty waiting tt)

heartbeat_wins_example :
    terminate_stale_prolific_participation
      (record_participation_stage (run empty waiting) identity Milestone.waiting 70000).0
      identity
      60000
      timeout
      90000
    ≡ ((record_participation_stage (run empty waiting) identity Milestone.waiting 70000).0, none)
heartbeat_wins_example =
    heartbeat_wins (run empty waiting) identity Milestone.waiting 70000 60000 timeout 90000
      (ground arith)

partial_payment_bounds_example :
    (partial_payment_min_pence
      ≤ partial_payment_pence EnvNumber.unset (EnvNumber.natural 300) 0 61000)
    × (partial_payment_pence EnvNumber.unset (EnvNumber.natural 300) 0 61000
        ≤ at_least_minimum (EnvNumber.natural 300) default_partial_payment_max_pence)
    × (partial_payment_pence EnvNumber.unset (EnvNumber.natural 300) 0 61000
        ≤ partial_payment_pence EnvNumber.unset (EnvNumber.natural 300) 0 600000)
partial_payment_bounds_example =
    partial_payment_bounds EnvNumber.unset (EnvNumber.natural 300) 0 61000 600000 (ground arith)

count_words-append_space_example :
    count_words (text "take the " ++ 32 ∷ text "oxygen tanks")
    ≡ count_words (text "take the ") + count_words (text "oxygen tanks")
unfolding is_space
count_words-append_space_example =
    count_words-append_space (text "take the ") 32 (text "oxygen tanks") refl
