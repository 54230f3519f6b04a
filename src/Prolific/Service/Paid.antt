-- ===== src/Prolific/Service/Paid.antt =====
-- Any sequence of the service's operations pays a bonus at most once.
use Prim.Native.Nat.{ℕ, ◌≤◌}
use gdm_platform.Common.{Text, Text-eq, List, [], ◌∷◌, refl, inl, inr, arith, Option-cases}
use gdm_platform.Participation.State.{ParticipationState}
use gdm_platform.Participation.Actions.{get_participation_outcome_by_id}
use gdm_platform.Participation.Run.Fit.{Consistent}
use gdm_platform.Prolific.Api.{Worker}
use gdm_platform.Prolific.Service.{
  request_return_by_id, request_return_and_record_failure_by_id, Operation, operate, operate_all,
}
use gdm_platform.Prolific.Service.Safety.{IsSafe, get_participation_outcome_by_id-IsRow}
use gdm_platform.Prolific.Service.Marks.{payments}
use gdm_platform.Prolific.Service.Steps.{
  process_one-IsSafe, request_return_by_id-IsSafe, recorded-IsSafe, prepare_bonus_by_id-IsSafe,
  pay_bonus_by_id-IsSafe, resolve_manually_by_id-IsSafe,
}

module _ (j : Text) where
  operate-IsSafe :
      (operation : ℕ × Operation) (worker : Worker)
      → IsSafe j worker
      → IsSafe j (operate operation worker)
  unfolding operate request_return_and_record_failure_by_id
  operate-IsSafe (now, Operation.process id api) worker safe =
      elim (Option-cases (get_participation_outcome_by_id worker.store id)) [
        | inl missing ↦ rw (missing, operate) safe
        | inr (row, known) ↦
            rw (known, operate)
              (process_one-IsSafe j api now row worker safe
                (get_participation_outcome_by_id-IsRow worker.store id row known))
      ]
  operate-IsSafe (now, Operation.return_by_id id api) worker safe =
      request_return_by_id-IsSafe j api now id worker safe
  operate-IsSafe (now, Operation.return_and_record_failure_by_id id api) worker safe =
      recorded-IsSafe j now id (request_return_by_id api now id worker)
        (request_return_by_id-IsSafe j api now id worker safe)
  operate-IsSafe (now, Operation.prepare_by_id id api) worker safe =
      prepare_bonus_by_id-IsSafe j api now id worker safe
  operate-IsSafe (now, Operation.pay_by_id id api) worker safe =
      pay_bonus_by_id-IsSafe j api now id worker safe
  operate-IsSafe (now, Operation.resolve_by_id id) worker safe =
      resolve_manually_by_id-IsSafe j id worker safe

  operate_all-IsSafe :
      (operations : List (ℕ × Operation)) (worker : Worker)
      → IsSafe j worker
      → IsSafe j (operate_all operations worker)
  unfolding operate_all
  operate_all-IsSafe [] worker safe = safe
  operate_all-IsSafe (operation ∷ operations) worker safe =
      operate_all-IsSafe operations (operate operation worker)
        (operate-IsSafe operation worker safe)

-- From a consistent store for which no payment was requested yet, whatever operations follow, one
-- after the other, and whatever Prolific answers: for each outcome the request to pay its bonus is
-- sent at most once.
pub paid_once :
    (st : ParticipationState) (operations : List (ℕ × Operation)) (id : Text)
    → Consistent st
    → payments id (operate_all operations (record { store = st; calls = [] })).calls ≤ 1
unfolding payments
paid_once st operations id h =
    let start : IsSafe id (record { store = st; calls = [] }) = record {
      consistent = h;
      paid = inl refl;
    } in
    elim (operate_all-IsSafe id operations _ start).paid [
      | inl none_sent ↦ ground arith
      | inr (once, batch, closed) ↦ ground arith
    ]
