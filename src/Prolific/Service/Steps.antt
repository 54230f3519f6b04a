-- ===== src/Prolific/Service/Steps.antt =====
-- Each operation of the service keeps it safe that no outcome is paid twice.
use Prim.Native.Nat.{ℕ}
use gdm_platform.Common.{
  Text, Text-eq, false, ◌||◌, ◌&&◌, is_some, or_else, ltb, ◌≡◌, refl, sym, ap, ◌∙◌, inl, inr,
  Bool-cases, Option-cases,
}
use gdm_platform.Shared.Models.{ProlificActionStatus, ParticipationOutcomeRecord}
use gdm_platform.Checkpoint.Rankings.{truthy}
use gdm_platform.Participation.Actions.{get_participation_outcome_by_id}
use gdm_platform.Prolific.Api.{Api, Worker, Failure, Attempt, Answer}
use gdm_platform.Prolific.Actions.{cleared, request_return, prepare_bonus}
use gdm_platform.Prolific.Service.{
  is_actionable, caught, recorded, is_partial, is_return_requested, with_current, and_then, report,
  require_outcome, failed_patch, record_failure, pay_unless_submitted, process_payment, process_all,
  process_one, request_return_by_id, prepare_bonus_by_id, pay_bonus_by_id, resolve_manually_by_id,
}
use gdm_platform.Prolific.Service.Once.{
  request_return-IsSafe, prepare_bonus-IsSafe, pay_bonus-IsSafe,
}
use gdm_platform.Prolific.Service.Safety.{
  IsSafe, IsRow, get_participation_outcome_by_id-IsRow, row-id, request_return-has_batch,
  mark-IsSafe,
}
use gdm_platform.Prolific.Service.Marks.{has_batch}

module _ (j : Text) where
  with_current-IsSafe :
      (id : Text) (worker : Worker) (next : ParticipationOutcomeRecord → Worker × Attempt)
      → IsSafe j worker
      → ((row : ParticipationOutcomeRecord)
          → IsRow worker.store row
          → row.id ≡ id
          → IsSafe j (next row).0)
      → IsSafe j (with_current id worker next).0
  unfolding with_current
  with_current-IsSafe id worker next safe after =
      elim (Option-cases (get_participation_outcome_by_id worker.store id)) [
        | inl missing ↦ rw (missing, with_current) safe
        | inr (row, known) ↦
            rw (known, with_current)
              (after row (get_participation_outcome_by_id-IsRow worker.store id row known)
                (row-id worker.store id row known))
      ]

  and_then-IsSafe :
      (first : Worker × Attempt) (next : Worker → Worker × Attempt)
      → IsSafe j first.0
      → ((worker : Worker) → IsSafe j worker → IsSafe j (next worker).0)
      → IsSafe j (and_then first next).0
  and_then-IsSafe (worker, Attempt.succeeded) next safe after = after worker safe
  and_then-IsSafe (worker, Attempt.thrown failure) next safe after = safe

  report-IsSafe :
      (id : Text) (attempt : Worker × Attempt) → IsSafe j attempt.0 → IsSafe j (report id attempt).0
  report-IsSafe id (worker, Attempt.succeeded) safe = safe
  report-IsSafe id (worker, Attempt.thrown failure) safe = safe

  require_outcome-IsSafe :
      (id : Text) (worker : Worker) (next : ParticipationOutcomeRecord → Worker × Answer)
      → IsSafe j worker
      → ((row : ParticipationOutcomeRecord)
          → IsRow worker.store row
          → row.id ≡ id
          → IsSafe j (next row).0)
      → IsSafe j (require_outcome id worker next).0
  unfolding require_outcome
  require_outcome-IsSafe id worker next safe after =
      elim (Option-cases (get_participation_outcome_by_id worker.store id)) [
        | inl missing ↦ rw (missing, require_outcome) safe
        | inr (row, known) ↦ elim (Bool-cases (is_actionable row.outcome)) [
          | inl due ↦
              rw (known, due, require_outcome)
                (after row (get_participation_outcome_by_id-IsRow worker.store id row known)
                  (row-id worker.store id row known))
          | inr ended ↦ rw (known, ended, require_outcome) safe
        ]
      ]

  record_failure-IsSafe :
      (now : ℕ) (id : Text) (failure : Failure) (worker : Worker)
      → IsSafe j worker
      → IsSafe j (record_failure now id failure worker)
  unfolding record_failure
  record_failure-IsSafe now id failure worker safe =
      mark-IsSafe j id (failed_patch now failure) worker (inl refl) safe

  caught-IsSafe :
      (now : ℕ) (id : Text) (attempt : Worker × Attempt)
      → IsSafe j attempt.0
      → IsSafe j (caught now id attempt)
  unfolding caught
  caught-IsSafe now id (after, Attempt.succeeded) safe = safe
  caught-IsSafe now id (after, Attempt.thrown Failure.payment_uncertain) safe = safe
  caught-IsSafe now id (after, Attempt.thrown (Failure.conflict message)) safe =
      record_failure-IsSafe now id (Failure.conflict message) after safe
  caught-IsSafe now id (after, Attempt.thrown (Failure.not_found message)) safe =
      record_failure-IsSafe now id (Failure.not_found message) after safe
  caught-IsSafe now id (after, Attempt.thrown (Failure.unavailable message)) safe =
      record_failure-IsSafe now id (Failure.unavailable message) after safe
  caught-IsSafe now id (after, Attempt.thrown (Failure.other message)) safe =
      record_failure-IsSafe now id (Failure.other message) after safe

  pub recorded-IsSafe :
      (now : ℕ) (id : Text) (answer : Worker × Answer)
      → IsSafe j answer.0
      → IsSafe j (recorded now id answer).0
  unfolding recorded
  recorded-IsSafe now id (after, Answer.returned row) safe = safe
  recorded-IsSafe now id (after, Answer.threw failure) safe =
      record_failure-IsSafe now id failure after safe

  pub resolve_manually_by_id-IsSafe :
      (id : Text) (worker : Worker)
      → IsSafe j worker
      → IsSafe j (resolve_manually_by_id id worker).0
  unfolding resolve_manually_by_id
  resolve_manually_by_id-IsSafe id worker safe =
      require_outcome-IsSafe id worker _ safe (λ row at same.
        mark-IsSafe j id (cleared ProlificActionStatus.resolved_manually) worker (inl refl) safe)

  module _ (api : Api) (now : ℕ) where
    pub request_return_by_id-IsSafe :
        (id : Text) (worker : Worker)
        → IsSafe j worker
        → IsSafe j (request_return_by_id api now id worker).0
    unfolding request_return_by_id
    request_return_by_id-IsSafe id worker safe =
        require_outcome-IsSafe id worker _ safe (λ row at same.
          elim (Option-cases row.return_requested_at) [
            | inl due ↦
                rw due (report-IsSafe id _ (request_return-IsSafe j api now row worker safe))
            | inr (t, asked) ↦ rw asked safe
          ])

    pub pay_bonus_by_id-IsSafe :
        (id : Text) (worker : Worker)
        → IsSafe j worker
        → IsSafe j (pay_bonus_by_id api now id worker).0
    unfolding pay_bonus_by_id
    pay_bonus_by_id-IsSafe id worker safe = require_outcome-IsSafe id worker _ safe (λ row at same.
        elim (Option-cases row.payment_submitted_at) [
          | inl due ↦ rw due (report-IsSafe id _ (pay_bonus-IsSafe j api now row worker safe at))
          | inr (t, paid) ↦ rw paid safe
        ])

    prepare_current-IsSafe :
        (id : Text) (worker : Worker)
        → IsSafe j worker
        → has_batch worker.store id ≡ false
        → IsSafe j (with_current id worker (λ row. prepare_bonus api now row worker)).0
    prepare_current-IsSafe id worker safe bare =
        with_current-IsSafe id worker _ safe (λ row at same.
          prepare_bonus-IsSafe j api now row worker safe at
            (at.batch ∙ ap (has_batch worker.store) same ∙ bare))

    prepare_after_return-IsSafe :
        (id : Text) (row : ParticipationOutcomeRecord) (worker : Worker)
        → IsSafe j worker
        → has_batch worker.store id ≡ false
        → IsSafe j
            (and_then
              (request_return api now row worker)
              (λ asked. with_current id asked (λ row. prepare_bonus api now row asked))).0
    prepare_after_return-IsSafe id row worker safe bare =
        continued (request_return api now row worker)
          (request_return-IsSafe j api now row worker safe)
          (request_return-has_batch api now row worker id safe.consistent bare)
      where
        continued :
            (attempt : Worker × Attempt)
            → IsSafe j attempt.0
            → has_batch attempt.0.store id ≡ false
            → IsSafe j
                (and_then attempt
                  (λ asked. with_current id asked (λ row. prepare_bonus api now row asked))).0
        continued (asked, Attempt.succeeded) safe bare = prepare_current-IsSafe id asked safe bare
        continued (asked, Attempt.thrown failure) safe bare = safe

    pub prepare_bonus_by_id-IsSafe :
        (id : Text) (worker : Worker)
        → IsSafe j worker
        → IsSafe j (prepare_bonus_by_id api now id worker).0
    unfolding prepare_bonus_by_id
    prepare_bonus_by_id-IsSafe id worker safe =
        require_outcome-IsSafe id worker _ safe (λ row at same.
          elim (Bool-cases (is_partial row.compensation_kind)) [
            | inr other ↦ rw other safe
            | inl partial ↦ elim (Option-cases (truthy row.bonus_batch_id)) [
              | inr (batch, prepared) ↦ rw (partial, prepared) safe
              | inl lacking ↦
                  let bare : has_batch worker.store id ≡ false =
                    ap (has_batch worker.store) (sym same) ∙ sym at.batch ∙ ap is_some lacking in
                  elim (Option-cases row.return_requested_at) [
                    | inr (t, asked) ↦
                        rw (partial, lacking, asked)
                          (report-IsSafe id _ (prepare_current-IsSafe id worker safe bare))
                    | inl due ↦
                        rw (partial, lacking, due)
                          (report-IsSafe id _ (prepare_after_return-IsSafe id row worker safe bare))
                  ]
            ]
          ])

    pay_unless_submitted-IsSafe :
        (row : ParticipationOutcomeRecord) (worker : Worker)
        → IsSafe j worker
        → IsRow worker.store row
        → IsSafe j (pay_unless_submitted api now row worker).0
    unfolding pay_unless_submitted
    pay_unless_submitted-IsSafe row worker safe at = elim (Option-cases row.payment_submitted_at) [
      | inl due ↦ rw (due, pay_unless_submitted) (pay_bonus-IsSafe j api now row worker safe at)
      | inr (t, paid) ↦ rw (paid, pay_unless_submitted) safe
    ]

    process_payment-IsSafe :
        (row : ParticipationOutcomeRecord) (worker : Worker)
        → IsSafe j worker
        → IsRow worker.store row
        → IsSafe j (process_payment api now row worker).0
    unfolding process_payment
    process_payment-IsSafe row worker safe at =
        elim (Bool-cases
          (is_partial row.compensation_kind && ltb 0 (or_else row.compensation_amount_pence 0))) [
            | inr nothing ↦ rw (nothing, process_payment) safe
            | inl owed ↦ elim (Option-cases (truthy row.bonus_batch_id)) [
              | inr (batch, prepared) ↦
                  rw (owed, prepared, process_payment)
                    (pay_unless_submitted-IsSafe row worker safe at)
              | inl lacking ↦
                  rw (owed, lacking, process_payment)
                    (and_then-IsSafe (prepare_bonus api now row worker) _
                      (prepare_bonus-IsSafe j api now row worker safe at (ap is_some lacking))
                      (λ prepared kept.
                        with_current-IsSafe row.id prepared _ kept (λ current at same.
                          pay_unless_submitted-IsSafe current prepared kept at)))
            ]
          ]

    process_all-IsSafe :
        (row : ParticipationOutcomeRecord) (worker : Worker)
        → IsSafe j worker
        → IsRow worker.store row
        → IsSafe j (process_all api now row worker).0
    unfolding process_all
    process_all-IsSafe row worker safe at = elim (Bool-cases (is_actionable row.outcome)) [
      | inr ended ↦ rw (ended, process_all) safe
      | inl due ↦
          elim (Bool-cases
            (is_some row.return_requested_at || is_return_requested row.prolific_action_status)) [
              | inl asked ↦ rw (due, asked, process_all) (process_payment-IsSafe row worker safe at)
              | inr fresh ↦
                  rw (due, fresh, process_all)
                    (and_then-IsSafe (request_return api now row worker) _
                      (request_return-IsSafe j api now row worker safe)
                      (λ asked kept.
                        with_current-IsSafe row.id asked _ kept
                          (λ current at same. process_payment-IsSafe current asked kept at)))
            ]
    ]

    pub process_one-IsSafe :
        (row : ParticipationOutcomeRecord) (worker : Worker)
        → IsSafe j worker
        → IsRow worker.store row
        → IsSafe j (process_one api now row worker)
    unfolding process_one
    process_one-IsSafe row worker safe at =
        caught-IsSafe now row.id (process_all api now row worker)
          (process_all-IsSafe row worker safe at)
