-- ===== src/Participation/Rules.antt =====
-- store/participation.ts: stages, terminal outcomes and the compensation rows that they queue.
use Prim.Native.Nat.{ℕ, ◌-◌, ◌/◌}
use gdm_platform.Common.{Text, text, ◌++◌, Option, none, some, take}
use gdm_platform.Shared.Timestamp.{Timestamp, to_iso}
use gdm_platform.Participation.Endings.{TerminationCompensation, EndedOutcome, kind_of, outcome_of}
use gdm_platform.Shared.Models.{
  ProlificIdentity, ProlificArrival, ParticipationStage, ProlificActionStatus,
  ParticipationOutcomeRecord,
}

-- `STAGE_ORDER.indexOf(stage)`.
unfoldable pub stage_index : ParticipationStage → ℕ
stage_index ParticipationStage.arrived = 0
stage_index ParticipationStage.consent = 1
stage_index ParticipationStage.entry = 2
stage_index ParticipationStage.waiting = 3
stage_index ParticipationStage.chat = 4
stage_index ParticipationStage.exit = 5
stage_index ParticipationStage.done = 6
stage_index ParticipationStage.terminated = 7

pub record Termination : Type 0 where
  pub outcome : EndedOutcome
  pub reason : Text
  pub compensation_kind : TerminationCompensation
  pub compensation_amount_pence : Option ℕ

abbrev pub outcome_reason_max_length : ℕ
outcome_reason_max_length = 500

unfoldable pub arrival_key : ProlificIdentity → Text
arrival_key identity = identity.study_id ++ (text ":" ++ identity.session_id)

-- Whole seconds from `start` to `now`, not below 0; `none` stands for NaN.
unfoldable pub elapsed_seconds_since : Timestamp → ℕ → Option ℕ
elapsed_seconds_since start now = elim start.time [
  | none ↦ none
  | some ms ↦ some ((now - ms) / 1000)
]

-- `{ id: arrivalKey(identity), ...arrival }`.
abbrev pub record_of : Text → ProlificArrival → ParticipationOutcomeRecord
record_of id arrival = record {
  id = id;
  arrival = arrival;
  return_requested_at = none;
  bonus_batch_id = none;
  payment_submitted_at = none;
  action_error = none;
}

-- `terminateMemoryArrival`, with the fields of `terminationData`.
unfoldable pub terminate_arrival : ProlificArrival → ℕ → Termination → ProlificArrival
unfolding elapsed_seconds_since
terminate_arrival arrival now termination = record arrival {
  stage = ParticipationStage.terminated;
  stage_updated_at = to_iso now;
  last_seen_at = to_iso now;
  outcome = some (outcome_of termination.outcome);
  outcome_reason = some (take outcome_reason_max_length termination.reason);
  ended_at = some (to_iso now);
  elapsed_seconds = elapsed_seconds_since arrival.arrived_at now;
  compensation_kind = some (kind_of termination.compensation_kind);
  compensation_amount_pence = termination.compensation_amount_pence;
  prolific_action_status = some ProlificActionStatus.pending;
}
