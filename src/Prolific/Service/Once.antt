-- ===== src/Prolific/Service/Once.antt =====
-- The three requests to Prolific keep it safe that no outcome is paid twice.
use Prim.Native.Nat.{ℕ}
use gdm_platform.Common.{
  Text, text, Text-eq, [], ◌∷◌, ◌++◌, Option, none, some, true, false, text_eq_iff, or_else, nat_eq,
  is_some, ◌==◌, ◌≡◌, refl, sym, ap, ◌∙◌, ◌⊎◌, inl, inr, arith, Bool-cases, Option-cases,
}
use gdm_platform.Shared.Timestamp.{decimal}
use gdm_platform.Shared.Models.{ProlificActionStatus, ParticipationOutcomeRecord}
use gdm_platform.Checkpoint.Rankings.{truthy}
use gdm_platform.Participation.Actions.{mark_prolific_action}
use gdm_platform.Participation.Run.Consistent.{marks-Consistent}
use gdm_platform.Prolific.Api.{return_reason, Api, ApiCall, Worker}
use gdm_platform.Prolific.Actions.{
  cleared, returned_patch, prepared_patch, submitted_patch, uncertain_patch, keep_batch, mark, sent,
  is_bonus_prepared, pounds, request_return, prepare_bonus, pay_bonus, mark_payment_uncertain,
  pay_batch,
}
use gdm_platform.Prolific.Service.Marks.{
  has_batch, is_payable, pays, payments, payments-append, found-IsMarked,
}
use gdm_platform.Prolific.Service.Safety.{IsSafe, mark-IsSafe, IsRow, Reply-cases}

module _ (j : Text) where
  -- An outcome without a batch, or with one that may be paid, was never asked to be paid.
  unpaid :
      (worker : Worker) (row : ParticipationOutcomeRecord)
      → IsSafe j worker
      → IsRow worker.store row
      → (is_some (truthy row.bonus_batch_id) ≡ false)
        ⊎ (is_bonus_prepared row.prolific_action_status ≡ true)
      → (row.id == j) ≡ true
      → payments j worker.calls ≡ 0
  unpaid worker row safe at state hit =
      let same : row.id ≡ j = (text_eq_iff row.id j).0 hit in
      let batch : is_some (truthy row.bonus_batch_id) ≡ has_batch worker.store j =
        at.batch ∙ ap (has_batch worker.store) same in
      let payable : is_bonus_prepared row.prolific_action_status ≡ is_payable worker.store j =
        at.payable ∙ ap (is_payable worker.store) same in
      elim safe.paid [
        | inl none_sent ↦ none_sent
        | inr (once, batched, closed) ↦ elim state [
          | inl unbatched ↦ let bad : true ≡ false = sym batched ∙ sym batch ∙ unbatched in cc
          | inr ready ↦ let bad : true ≡ false = sym ready ∙ payable ∙ closed in cc
        ]
      ]

  sent-payments :
      (call : ApiCall) (worker : Worker)
      → pays j call ≡ 0
      → payments j (worker.calls ++ call ∷ []) ≡ payments j worker.calls
  unfolding payments
  sent-payments call worker free = ground (arith, payments-append j worker.calls (call ∷ []))

  sent-IsSafe :
      (call : ApiCall) (worker : Worker)
      → pays j call ≡ 0
      → IsSafe j worker
      → IsSafe j (sent call worker)
  sent-IsSafe call worker free safe = record {
    consistent = safe.consistent;
    paid = rw (sent-payments call worker free) safe.paid;
  }

  keep_batch-IsSafe :
      (id : Text) (batch : Option Text) (worker : Worker)
      → ((id == j) ≡ true → payments j worker.calls ≡ 0)
      → IsSafe j worker
      → IsSafe j (keep_batch id batch worker).0
  unfolding keep_batch
  keep_batch-IsSafe id none worker free safe = safe
  keep_batch-IsSafe id (some batch) worker free safe =
      mark-IsSafe j id (prepared_patch batch) worker (inr free) safe

  module _ (api : Api) (now : ℕ) (row : ParticipationOutcomeRecord) where
    pub request_return-IsSafe :
        (worker : Worker) → IsSafe j worker → IsSafe j (request_return api now row worker).0
    unfolding request_return
    request_return-IsSafe worker safe =
        let asked =
          sent-IsSafe (ApiCall.request_return row.id row.session_id (return_reason row)) worker refl
            safe in
        elim (Option-cases (truthy api.token)) [
          | inl missing ↦ rw (missing, request_return) safe
          | inr (token, held) ↦ elim (Reply-cases api.on_return) [
            | inl ok ↦
                rw (held, ok, request_return)
                  (mark-IsSafe j row.id (returned_patch now) _ (inl refl) asked)
            | inr (inl (status, refused)) ↦ rw (held, refused, request_return) asked
            | inr (inr (message, lost)) ↦ rw (held, lost, request_return) asked
          ]
        ]

    pub prepare_bonus-IsSafe :
        (worker : Worker)
        → IsSafe j worker
        → IsRow worker.store row
        → is_some (truthy row.bonus_batch_id) ≡ false
        → IsSafe j (prepare_bonus api now row worker).0
    unfolding prepare_bonus
    prepare_bonus-IsSafe worker safe at unbatched =
        let amount = or_else row.compensation_amount_pence 0 in
        let call =
          ApiCall.bonus_payments row.id row.study_id
            (row.session_id ++ text "," ++ pounds amount) in
        let asked = sent-IsSafe call worker refl safe in
        let free : (row.id == j) ≡ true → payments j (worker.calls ++ call ∷ []) ≡ 0 =
          λ hit. sent-payments call worker refl ∙ unpaid worker row safe at (inl unbatched) hit in
        elim (Bool-cases (nat_eq amount 0)) [
          | inl empty ↦ rw (empty, prepare_bonus) safe
          | inr payable ↦ elim (Option-cases (truthy api.token)) [
            | inl missing ↦ rw (payable, missing, prepare_bonus) safe
            | inr (token, held) ↦ elim (Reply-cases api.on_prepare) [
              | inl ok ↦
                  rw (payable, held, ok, prepare_bonus)
                    (keep_batch-IsSafe row.id (truthy api.batch) (sent call worker) free asked)
              | inr (inl (status, refused)) ↦ rw (payable, held, refused, prepare_bonus) asked
              | inr (inr (message, lost)) ↦ rw (payable, held, lost, prepare_bonus) asked
            ]
          ]
        ]

    sent_once :
        (batch : Text) (worker : Worker)
        → IsSafe j worker
        → IsRow worker.store row
        → is_bonus_prepared row.prolific_action_status ≡ true
        → is_some (truthy row.bonus_batch_id) ≡ true
        → let after =
            mark_prolific_action worker.store row.id
              (cleared ProlificActionStatus.payment_in_progress) in
          let calls = worker.calls ++ ApiCall.pay row.id batch ∷ [] in
          (payments j calls ≡ 0)
          ⊎ ((payments j calls ≡ 1) × (has_batch after j ≡ true) × (is_payable after j ≡ false))
    unfolding payments
    sent_once batch worker safe at ready batched =
        let (a, found) = at.stored in
        let m =
          found-IsMarked worker.store row.id (cleared ProlificActionStatus.payment_in_progress) a j
            safe.consistent found in
        let total = payments-append j worker.calls (ApiCall.pay row.id batch ∷ []) in
        elim (Bool-cases (row.id == j)) [
          | inl hit ↦
              let none_sent = unpaid worker row safe at (inr ready) hit in
              let has : has_batch worker.store j ≡ true =
                ap (has_batch worker.store) (sym ((text_eq_iff row.id j).0 hit))
                ∙ sym at.batch
                ∙ batched in
              inr (total ∙ rw (hit, none_sent) refl, m.batch has, m.payable ∙ rw hit refl)
          | inr miss ↦
              let same : payments j (worker.calls ++ ApiCall.pay row.id batch ∷ [])
                  ≡ payments j worker.calls =
                ground (arith, total) in
              elim safe.paid [
                | inl none_sent ↦ inl (same ∙ none_sent)
                | inr (once, has, closed) ↦
                    inr (same ∙ once, m.batch has, m.payable ∙ rw miss closed)
              ]
        ]

    pay-IsSafe :
        (batch : Text) (worker : Worker)
        → IsSafe j worker
        → IsRow worker.store row
        → is_bonus_prepared row.prolific_action_status ≡ true
        → is_some (truthy row.bonus_batch_id) ≡ true
        → IsSafe j (
            sent
              (ApiCall.pay row.id batch)
              (mark row.id (cleared ProlificActionStatus.payment_in_progress) worker))
    unfolding mark
    pay-IsSafe batch worker safe at ready batched = record {
      consistent =
          marks-Consistent worker.store row.id (cleared ProlificActionStatus.payment_in_progress)
            safe.consistent;
      paid = sent_once batch worker safe at ready batched;
    }

    pub pay_bonus-IsSafe :
        (worker : Worker)
        → IsSafe j worker
        → IsRow worker.store row
        → IsSafe j (pay_bonus api now row worker).0
    unfolding pay_bonus pay_batch mark_payment_uncertain
    pay_bonus-IsSafe worker safe at = elim (Option-cases (truthy row.bonus_batch_id)) [
      | inl bare ↦ rw (bare, pay_bonus) safe
      | inr (batch, prepared) ↦ elim (Bool-cases (is_bonus_prepared row.prolific_action_status)) [
        | inr closed ↦ rw (prepared, closed, pay_bonus) safe
        | inl ready ↦ elim (Option-cases (truthy api.token)) [
          | inl missing ↦ rw (prepared, ready, missing, pay_bonus) safe
          | inr (token, held) ↦
              let asked = pay-IsSafe batch worker safe at ready (ap is_some prepared) in
              elim (Reply-cases api.on_pay) [
                | inl ok ↦
                    rw (prepared, ready, held, ok, pay_bonus)
                      (mark-IsSafe j row.id (submitted_patch now) _ (inl refl) asked)
                | inr (inl (status, refused)) ↦
                    rw (prepared, ready, held, refused, pay_bonus)
                      (mark-IsSafe j row.id
                        (uncertain_patch (text "bonus payment returned " ++ decimal status)) _
                        (inl refl) asked)
                | inr (inr (message, lost)) ↦
                    rw (prepared, ready, held, lost, pay_bonus)
                      (mark-IsSafe j row.id (uncertain_patch message) _ (inl refl) asked)
              ]
        ]
      ]
    ]
