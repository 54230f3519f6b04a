-- ===== src/Prolific/Service/Safety.antt =====
-- When no outcome can be paid twice, and what a row of the store says of it.
use Prim.Native.Nat.{ℕ}
use mathlib.Core.Path.{subst}
use gdm_platform.Common.{
  Text, Text-eq, none, some, true, false, get, is_some, ◌==◌, ◌≡◌, refl, sym, ap, ◌∙◌, ◌⊎◌, inl,
  inr, Bool-cases, Option-cases,
}
use gdm_platform.Shared.Models.{ProlificArrival, ParticipationOutcomeRecord}
use gdm_platform.Checkpoint.Rankings.{truthy}
use gdm_platform.Participation.State.{ParticipationState}
use gdm_platform.Participation.Store.{outcome_record}
use gdm_platform.Participation.Actions.{ActionPatch, get_participation_outcome_by_id}
use gdm_platform.Participation.Run.Consistent.{marks-Consistent}
use gdm_platform.Participation.Run.Fit.{Consistent}
use gdm_platform.Prolific.Api.{Reply, Api, Worker}
use gdm_platform.Prolific.Actions.{returned_patch, mark, is_bonus_prepared, request_return}
use gdm_platform.Prolific.Service.Marks.{
  has_batch, is_payable, payments, outcome_record-id, outcome_record-arrival, outcome_record-batch,
  row_of, by_id, mark_missing, found-IsMarked, mark-has_batch,
}

-- For each outcome: no request to pay was sent, or one was, and then it has a batch and cannot be
-- paid any more.
pub record IsSafe (j : Text) (worker : Worker) : Type 0 where
  pub consistent : Consistent worker.store
  pub paid :
      (payments j worker.calls ≡ 0)
      ⊎ ((payments j worker.calls ≡ 1)
          × (has_batch worker.store j ≡ true)
          × (is_payable worker.store j ≡ false))

pub mark-IsSafe :
    (j id : Text) (patch : ActionPatch) (worker : Worker)
    → (is_bonus_prepared (some patch.status) ≡ false)
      ⊎ ((id == j) ≡ true → payments j worker.calls ≡ 0)
    → IsSafe j worker
    → IsSafe j (mark id patch worker)
unfolding mark
mark-IsSafe j id patch worker fresh safe = record {
  consistent = marks-Consistent worker.store id patch safe.consistent;
  paid = elim (Option-cases (get id worker.store.prolific_arrivals)) [
    | inl missing ↦ rw (mark_missing worker.store id patch missing) safe.paid
    | inr (a, found) ↦ elim safe.paid [
      | inl none_sent ↦ inl none_sent
      | inr (once, batch, closed) ↦
          let m = found-IsMarked worker.store id patch a j safe.consistent found in
          elim (Bool-cases (id == j)) [
            | inl hit ↦ elim fresh [
              | inl closes ↦ inr (once, m.batch batch, m.payable ∙ rw hit closes)
              | inr free ↦ inl (free hit)
            ]
            | inr miss ↦ inr (once, m.batch batch, m.payable ∙ rw miss closed)
          ]
    ]
  ];
}

-- A row as the store hands it out now.
pub record IsRow (st : ParticipationState) (row : ParticipationOutcomeRecord) : Type 0 where
  pub stored : (a : ProlificArrival) × (get row.id st.prolific_arrivals ≡ some a)
  pub batch : is_some (truthy row.bonus_batch_id) ≡ has_batch st row.id
  pub payable : is_bonus_prepared row.prolific_action_status ≡ is_payable st row.id

outcome_record-IsRow :
    (st : ParticipationState) (id : Text) (a : ProlificArrival)
    → get id st.prolific_arrivals ≡ some a
    → IsRow st (outcome_record st id a)
unfolding is_payable
outcome_record-IsRow st id a found = rw (outcome_record-id st id a) (record {
  stored = (a, found);
  batch = outcome_record-batch st id a;
  payable = rw (outcome_record-arrival st id a, found) refl;
})

pub get_participation_outcome_by_id-IsRow :
    (st : ParticipationState) (id : Text) (row : ParticipationOutcomeRecord)
    → get_participation_outcome_by_id st id ≡ some row
    → IsRow st row
get_participation_outcome_by_id-IsRow st id row known =
    elim (Option-cases (get id st.prolific_arrivals)) [
      | inl missing ↦
          let nothing : none ≡ some row = sym (by_id st id ∙ ap (row_of st id) missing) ∙ known in
          cc
      | inr (a, found) ↦
          let at : some (outcome_record st id a) ≡ some row =
            sym (by_id st id ∙ ap (row_of st id) found) ∙ known in
          let same : outcome_record st id a ≡ row = cc in
          subst (IsRow st) same (outcome_record-IsRow st id a found)
    ]

pub Reply-cases :
    (reply : Reply)
    → (reply ≡ Reply.ok)
      ⊎ ((status : ℕ) × (reply ≡ Reply.refused status))
      ⊎ ((message : Text) × (reply ≡ Reply.unreachable message))
Reply-cases Reply.ok = inl refl
Reply-cases (Reply.refused status) = inr (inl (status, refl))
Reply-cases (Reply.unreachable message) = inr (inr (message, refl))

pub row-id :
    (st : ParticipationState) (id : Text) (row : ParticipationOutcomeRecord)
    → get_participation_outcome_by_id st id ≡ some row
    → row.id ≡ id
row-id st id row known = elim (Option-cases (get id st.prolific_arrivals)) [
  | inl missing ↦
      let nothing : none ≡ some row = sym (by_id st id ∙ ap (row_of st id) missing) ∙ known in cc
  | inr (a, found) ↦
      let at : some (outcome_record st id a) ≡ some row =
        sym (by_id st id ∙ ap (row_of st id) found) ∙ known in
      let same : outcome_record st id a ≡ row = cc in
      ap (λ r. r.id) (sym same) ∙ outcome_record-id st id a
]

-- A request for a return prepares no bonus.
pub request_return-has_batch :
    (api : Api) (now : ℕ) (row : ParticipationOutcomeRecord) (worker : Worker) (j : Text)
    → Consistent worker.store
    → has_batch worker.store j ≡ false
    → has_batch (request_return api now row worker).0.store j ≡ false
unfolding request_return mark
request_return-has_batch api now row worker j h b = elim (Option-cases (truthy api.token)) [
  | inl missing ↦ rw (missing, request_return) b
  | inr (token, held) ↦ elim (Reply-cases api.on_return) [
    | inl ok ↦
        rw (held, ok, request_return)
          (mark-has_batch worker.store row.id (returned_patch now) j h refl b)
    | inr (inl (status, refused)) ↦ rw (held, refused, request_return) b
    | inr (inr (message, lost)) ↦ rw (held, lost, request_return) b
  ]
]
