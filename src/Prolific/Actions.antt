-- ===== src/Prolific/Actions.antt =====
-- prolific/prolific-actions.service.ts: the three requests, with the marks that they leave.
use Prim.Native.Nat.{ℕ, ◌/◌, ◌%◌}
use gdm_platform.Common.{
  Text, text, [], ◌∷◌, ◌++◌, Option, none, some, Bool, true, false, or_else, nat_eq, take,
}
use gdm_platform.Shared.Timestamp.{to_iso, decimal, padded}
use gdm_platform.Shared.Models.{ProlificActionStatus, ParticipationOutcomeRecord}
use gdm_platform.Checkpoint.Rankings.{truthy}
use gdm_platform.Participation.Actions.{ActionPatch, mark_prolific_action}
use gdm_platform.Prolific.Api.{Reply, Api, ApiCall, Worker, Failure, Attempt, return_reason}

-- A mark that changes the status, clears the error and the next attempt.
abbrev pub cleared : ProlificActionStatus → ActionPatch
cleared status = record {
  status = status;
  return_requested_at = none;
  bonus_batch_id = none;
  payment_submitted_at = none;
  action_error = some none;
  next_attempt_at = some none;
}

abbrev pub returned_patch : ℕ → ActionPatch
returned_patch now = record (cleared ProlificActionStatus.return_requested) {
  return_requested_at = some (to_iso now);
}

abbrev pub prepared_patch : Text → ActionPatch
prepared_patch batch = record (cleared ProlificActionStatus.bonus_prepared) {
  bonus_batch_id = some batch;
}

abbrev pub uncertain_patch : Text → ActionPatch
uncertain_patch message = record (cleared ProlificActionStatus.payment_uncertain) {
  action_error = some (
      some (
        take 500 (text "Verify this bonus in Prolific before taking another action: " ++ message)));
}

abbrev pub submitted_patch : ℕ → ActionPatch
submitted_patch now = record (cleared ProlificActionStatus.payment_submitted) {
  payment_submitted_at = some (to_iso now);
}

unfoldable pub mark : Text → ActionPatch → Worker → Worker
unfolding mark_prolific_action
mark id patch worker = record worker { store = mark_prolific_action worker.store id patch }

abbrev pub sent : ApiCall → Worker → Worker
sent call worker = record worker { calls = worker.calls ++ call ∷ [] }

abbrev pub no_token : Attempt
no_token = Attempt.thrown (Failure.unavailable (text "PROLIFIC_API_TOKEN is not configured"))

-- `(amountPence / 100).toFixed(2)`.
abbrev pub pounds : ℕ → Text
pounds pence = decimal (pence / 100) ++ text "." ++ padded 2 (pence % 100)

abbrev pub is_bonus_prepared : Option ProlificActionStatus → Bool
is_bonus_prepared (some ProlificActionStatus.bonus_prepared) = true
is_bonus_prepared _ = false

-- The batch id that Prolific answers with, if it does.
unfoldable pub keep_batch : Text → Option Text → Worker → Worker × Attempt
unfolding mark
keep_batch id none worker =
    (worker, Attempt.thrown (Failure.other (text "bonus preparation returned no batch id")))
keep_batch id (some batch) worker = (mark id (prepared_patch batch) worker, Attempt.succeeded)

module _ (api : Api) (now : ℕ) (outcome : ParticipationOutcomeRecord) where
  unfoldable pub request_return : Worker → Worker × Attempt
  unfolding mark return_reason
  request_return worker = elim (truthy api.token) [
    | none ↦ (worker, no_token)
    | some token ↦
        answered
          (sent (ApiCall.request_return outcome.id outcome.session_id (return_reason outcome))
            worker)
          api.on_return
  ]
    where
      answered : Worker → Reply → Worker × Attempt
      answered worker (Reply.unreachable message) = (worker, Attempt.thrown (Failure.other message))
      answered worker (Reply.refused status) = (
        worker,
        Attempt.thrown
            (Failure.other (text "request return failed (" ++ decimal status ++ text ")")),
      )
      answered worker Reply.ok = (mark outcome.id (returned_patch now) worker, Attempt.succeeded)

  unfoldable pub prepare_bonus : Worker → Worker × Attempt
  unfolding keep_batch
  prepare_bonus worker = elim (nat_eq amount_pence 0) [
    | true ↦ (worker, Attempt.thrown (Failure.conflict (text "partial payment amount is empty")))
    | false ↦ elim (truthy api.token) [
      | none ↦ (worker, no_token)
      | some token ↦
          answered
            (sent
              (ApiCall.bonus_payments outcome.id outcome.study_id
                (outcome.session_id ++ text "," ++ pounds amount_pence))
              worker)
            api.on_prepare
    ]
  ]
    where
      amount_pence : ℕ
      amount_pence = or_else outcome.compensation_amount_pence 0

      answered : Worker → Reply → Worker × Attempt
      answered worker (Reply.unreachable message) = (worker, Attempt.thrown (Failure.other message))
      answered worker (Reply.refused status) = (
        worker,
        Attempt.thrown
            (Failure.other (text "bonus preparation failed (" ++ decimal status ++ text ")")),
      )
      answered worker Reply.ok = keep_batch outcome.id (truthy api.batch) worker

  unfoldable pub mark_payment_uncertain : Text → Worker → Worker
  unfolding mark
  mark_payment_uncertain message worker = mark outcome.id (uncertain_patch message) worker

  -- The mark before the request, the request, and the mark of its answer.
  unfoldable pub pay_batch : Text → Worker → Worker × Attempt
  unfolding mark mark_payment_uncertain
  pay_batch batch worker = answered api.on_pay
    where
      asked : Worker
      asked =
          sent (ApiCall.pay outcome.id batch)
            (mark outcome.id (cleared ProlificActionStatus.payment_in_progress) worker)

      answered : Reply → Worker × Attempt
      answered (Reply.unreachable message) =
          (mark_payment_uncertain message asked, Attempt.thrown Failure.payment_uncertain)
      answered (Reply.refused status) = (
        mark_payment_uncertain (text "bonus payment returned " ++ decimal status) asked,
        Attempt.thrown Failure.payment_uncertain,
      )
      answered Reply.ok = (mark outcome.id (submitted_patch now) asked, Attempt.succeeded)

  unfoldable pub pay_bonus : Worker → Worker × Attempt
  unfolding pay_batch
  pay_bonus worker = elim (truthy outcome.bonus_batch_id) [
    | none ↦ (worker, Attempt.thrown (Failure.conflict (text "bonus has not been prepared")))
    | some batch ↦ elim (is_bonus_prepared outcome.prolific_action_status) [
      | false ↦ (worker, Attempt.thrown (Failure.conflict (text "bonus is not in a payable state")))
      | true ↦ elim (truthy api.token) [
        | none ↦ (worker, no_token)
        | some token ↦ pay_batch batch worker
      ]
    ]
  ]
