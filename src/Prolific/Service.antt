-- ===== src/Prolific/Service.antt =====
-- prolific/prolific-actions.service.ts: the operations of the service, and any sequence of them.
-- The flag `running` keeps two runs of the automation apart; the operations do not overlap.
pub mod Marks
pub mod Safety
pub mod Once
pub mod Steps
pub mod Paid
use Prim.Native.Nat.{ℕ, ◌+◌}
use gdm_platform.Common.{
  Text, text, Text-eq, List, [], ◌∷◌, Option, none, some, Bool, true, false, ◌&&◌, ◌||◌, or_else,
  is_some, ltb, take, if◌then◌else◌,
}
use gdm_platform.Shared.Timestamp.{to_iso}
use gdm_platform.Shared.Models.{
  ParticipationOutcome, CompensationKind, ProlificActionStatus, ParticipationOutcomeRecord,
}
use gdm_platform.Checkpoint.Rankings.{truthy}
use gdm_platform.Participation.State.{ParticipationState}
use gdm_platform.Participation.Actions.{
  ActionPatch, get_participation_outcome_by_id, due_prolific_actions,
}
use gdm_platform.Prolific.Api.{Api, Worker, Failure, Attempt, Answer, message_of}
use gdm_platform.Prolific.Actions.{cleared, mark, request_return, prepare_bonus, pay_bonus}

-- `!outcome.outcome || outcome.outcome === "completed"`, the other way round.
abbrev pub is_actionable : Option ParticipationOutcome → Bool
is_actionable none = false
is_actionable (some ParticipationOutcome.completed) = false
is_actionable (some _) = true

abbrev pub is_partial : Option CompensationKind → Bool
is_partial (some CompensationKind.partial) = true
is_partial _ = false

abbrev pub is_return_requested : Option ProlificActionStatus → Bool
is_return_requested (some ProlificActionStatus.return_requested) = true
is_return_requested _ = false

-- `(await this.store.getParticipationOutcomeById(id))!` and what reads it.
unfoldable pub with_current :
    Text → Worker → (ParticipationOutcomeRecord → Worker × Attempt) → Worker × Attempt
with_current id worker next = elim (get_participation_outcome_by_id worker.store id) [
  | none ↦ (worker, Attempt.thrown (Failure.other (text "Cannot read properties of undefined")))
  | some current ↦ next current
]

-- The next `await`, unless this one threw.
abbrev pub and_then : Worker × Attempt → (Worker → Worker × Attempt) → Worker × Attempt
and_then (worker, Attempt.succeeded) next = next worker
and_then (worker, Attempt.thrown failure) next = (worker, Attempt.thrown failure)

-- The row after an attempt, or its failure.
abbrev pub report : Text → Worker × Attempt → Worker × Answer
report id (worker, Attempt.succeeded) =
    (worker, Answer.returned (get_participation_outcome_by_id worker.store id))
report id (worker, Attempt.thrown failure) = (worker, Answer.threw failure)

-- `requireOutcome`, and what follows it.
unfoldable pub require_outcome :
    Text → Worker → (ParticipationOutcomeRecord → Worker × Answer) → Worker × Answer
require_outcome id worker next = elim (get_participation_outcome_by_id worker.store id) [
  | none ↦ (worker, Answer.threw (Failure.not_found (text "No actionable terminal outcome")))
  | some outcome ↦ elim (is_actionable outcome.outcome) [
    | true ↦ next outcome
    | false ↦ (worker, Answer.threw (Failure.conflict (text "No actionable terminal outcome")))
  ]
]

abbrev pub failed_action_retry_ms : ℕ
failed_action_retry_ms = 300000

abbrev pub failed_patch : ℕ → Failure → ActionPatch
failed_patch now failure = record (cleared ProlificActionStatus.failed) {
  action_error = some (some (take 500 (message_of failure)));
  next_attempt_at = some (some (to_iso (now + failed_action_retry_ms)));
}

unfoldable pub record_failure : ℕ → Text → Failure → Worker → Worker
unfolding mark message_of
record_failure now id failure worker = mark id (failed_patch now failure) worker

-- The `catch` of `requestReturnAndRecordFailureById`.
unfoldable pub recorded : ℕ → Text → Worker × Answer → Worker × Answer
unfolding record_failure
recorded now id (after, Answer.returned row) = (after, Answer.returned row)
recorded now id (after, Answer.threw failure) =
    (record_failure now id failure after, Answer.threw failure)

module _ (api : Api) (now : ℕ) where
  -- `if (!current.paymentSubmittedAt) await this.payBonus(current)`.
  unfoldable pub pay_unless_submitted : ParticipationOutcomeRecord → Worker → Worker × Attempt
  unfolding pay_bonus
  pay_unless_submitted row worker = elim row.payment_submitted_at [
    | some at ↦ (worker, Attempt.succeeded)
    | none ↦ pay_bonus api now row worker
  ]

  -- The preparation and the payment of `processAll`.
  unfoldable pub process_payment : ParticipationOutcomeRecord → Worker → Worker × Attempt
  unfolding prepare_bonus pay_unless_submitted with_current
  process_payment current worker =
      elim (is_partial current.compensation_kind
        && ltb 0 (or_else current.compensation_amount_pence 0)) [
          | false ↦ (worker, Attempt.succeeded)
          | true ↦ elim (truthy current.bonus_batch_id) [
            | some batch ↦ pay_unless_submitted current worker
            | none ↦ and_then (prepare_bonus api now current worker) (λ prepared.
                with_current current.id prepared (λ row. pay_unless_submitted row prepared))
          ]
        ]

  unfoldable pub process_all : ParticipationOutcomeRecord → Worker → Worker × Attempt
  unfolding process_payment request_return with_current
  process_all outcome worker = elim (is_actionable outcome.outcome) [
    | false ↦ (worker, Attempt.succeeded)
    | true ↦
        elim (is_some outcome.return_requested_at
          || is_return_requested outcome.prolific_action_status) [
            | true ↦ process_payment outcome worker
            | false ↦
                and_then (request_return api now outcome worker)
                  (λ asked. with_current outcome.id asked (λ row. process_payment row asked))
          ]
  ]

  unfoldable pub request_return_by_id : Text → Worker → Worker × Answer
  unfolding require_outcome request_return
  request_return_by_id id worker = require_outcome id worker (λ outcome.
      elim outcome.return_requested_at [
        | some at ↦ (worker, Answer.returned (some outcome))
        | none ↦ report id (request_return api now outcome worker)
      ])

  unfoldable pub request_return_and_record_failure_by_id : Text → Worker → Worker × Answer
  unfolding request_return_by_id recorded
  request_return_and_record_failure_by_id id worker =
      recorded now id (request_return_by_id id worker)

  unfoldable pub prepare_bonus_by_id : Text → Worker → Worker × Answer
  unfolding require_outcome request_return prepare_bonus with_current
  prepare_bonus_by_id id worker = require_outcome id worker (λ outcome.
      elim (is_partial outcome.compensation_kind) [
        | false ↦ (
          worker,
          Answer.threw
              (Failure.conflict (text "Only partial-compensation outcomes can prepare a bonus")),
        )
        | true ↦ elim (truthy outcome.bonus_batch_id) [
          | some batch ↦ (worker, Answer.returned (some outcome))
          | none ↦ elim outcome.return_requested_at [
            | some at ↦ report id (with_current id worker (λ row. prepare_bonus api now row worker))
            | none ↦ report id (
                and_then (request_return api now outcome worker)
                  (λ asked. with_current id asked (λ row. prepare_bonus api now row asked)))
          ]
        ]
      ])

  unfoldable pub pay_bonus_by_id : Text → Worker → Worker × Answer
  unfolding require_outcome pay_bonus
  pay_bonus_by_id id worker = require_outcome id worker (λ outcome.
      elim outcome.payment_submitted_at [
        | some at ↦ (worker, Answer.returned (some outcome))
        | none ↦ report id (pay_bonus api now outcome worker)
      ])

unfoldable pub resolve_manually_by_id : Text → Worker → Worker × Answer
unfolding require_outcome mark
resolve_manually_by_id id worker = require_outcome id worker (λ outcome.
    report id (mark id (cleared ProlificActionStatus.resolved_manually) worker, Attempt.succeeded))

-- The `catch` of `processDue`.
unfoldable pub caught : ℕ → Text → Worker × Attempt → Worker
unfolding record_failure
caught now id (after, Attempt.succeeded) = after
caught now id (after, Attempt.thrown Failure.payment_uncertain) = after
caught now id (after, Attempt.thrown failure) = record_failure now id failure after

-- One outcome of `processDue`.
unfoldable pub process_one : Api → ℕ → ParticipationOutcomeRecord → Worker → Worker
unfolding process_all caught
process_one api now outcome worker = caught now outcome.id (process_all api now outcome worker)

unfoldable pub process_each : (Text → Api) → ℕ → List ParticipationOutcomeRecord → Worker → Worker
unfolding process_one
process_each api now [] worker = worker
process_each api now (outcome ∷ outcomes) worker =
    process_each api now outcomes (process_one (api outcome.id) now outcome worker)

-- `processDue`, with its limit of 20 and with Prolific's answers for each outcome.
unfoldable pub process_due : (Text → Api) → ℕ → Worker → Worker
unfolding process_each due_prolific_actions
process_due api now worker = process_each api now (due_prolific_actions worker.store 20 now) worker

-- One operation of the service on an outcome, with Prolific's answers to it; `process` is what the
-- automation does with the outcome's row.
pub data Operation : Type 0 where
  process : (id : Text) → Api → Operation
  return_by_id : (id : Text) → Api → Operation
  return_and_record_failure_by_id : (id : Text) → Api → Operation
  prepare_by_id : (id : Text) → Api → Operation
  pay_by_id : (id : Text) → Api → Operation
  resolve_by_id : (id : Text) → Operation

unfoldable pub operate : ℕ × Operation → Worker → Worker
unfolding process_one request_return_by_id request_return_and_record_failure_by_id
    prepare_bonus_by_id pay_bonus_by_id resolve_manually_by_id
operate (now, Operation.process id api) worker =
    elim (get_participation_outcome_by_id worker.store id) [
      | none ↦ worker
      | some row ↦ process_one api now row worker
    ]
operate (now, Operation.return_by_id id api) worker = (request_return_by_id api now id worker).0
operate (now, Operation.return_and_record_failure_by_id id api) worker =
    (request_return_and_record_failure_by_id api now id worker).0
operate (now, Operation.prepare_by_id id api) worker = (prepare_bonus_by_id api now id worker).0
operate (now, Operation.pay_by_id id api) worker = (pay_bonus_by_id api now id worker).0
operate (now, Operation.resolve_by_id id) worker = (resolve_manually_by_id id worker).0

unfoldable pub operate_all : List (ℕ × Operation) → Worker → Worker
unfolding operate
operate_all [] worker = worker
operate_all (operation ∷ operations) worker = operate_all operations (operate operation worker)
