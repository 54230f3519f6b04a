-- ===== src/Prolific/Service/Marks.antt =====
-- What a mark of an outcome does to its batch and its status; the payments that were sent.
use Prim.Native.Nat.{ℕ, ◌+◌}
use mathlib.Core.Path.{subst}
use gdm_platform.Common.{
  Text, Text-eq, List, [], ◌∷◌, ◌++◌, Option, none, some, Bool, true, false, find, get, JsMap,
  get-put, text_eq_iff, or_else, first_some, is_some, if◌then◌else◌, ◌==◌, ◌≡◌, refl, sym, ap, ◌∙◌,
  inl, inr, arith, Bool-cases, Option-cases,
}
use gdm_platform.Shared.Models.{
  ProlificIdentity, ProlificArrival, ProlificActionStatus, ParticipationOutcomeRecord,
}
use gdm_platform.Checkpoint.Rankings.{truthy}
use gdm_platform.Participation.Rules.{arrival_key}
use gdm_platform.Participation.State.{ParticipationState, set_arrival}
use gdm_platform.Participation.Store.{outcome_record}
use gdm_platform.Participation.Actions.{
  ActionPatch, no_action, patch_action, patched, set_status, outcome_records,
  list_participation_outcomes, get_participation_outcome_by_id, mark_prolific_action,
}
use gdm_platform.Participation.Run.Fit.{Consistent, fit_of_found}
use gdm_platform.Prolific.Api.{ApiCall}
use gdm_platform.Prolific.Actions.{is_bonus_prepared}

-- The outcome has a batch of its bonus.
unfoldable pub has_batch : ParticipationState → Text → Bool
has_batch st id =
    is_some (truthy (or_else (get id st.memory_prolific_actions) no_action).bonus_batch_id)

abbrev pub prepared_of : Option ProlificArrival → Bool
prepared_of none = false
prepared_of (some arrival) = is_bonus_prepared arrival.prolific_action_status

-- The bonus may be paid.
unfoldable pub is_payable : ParticipationState → Text → Bool
is_payable st id = prepared_of (get id st.prolific_arrivals)

abbrev pub pays : Text → ApiCall → ℕ
pays id (ApiCall.pay other batch) = if other == id then 1 else 0
pays id _ = 0

-- How many requests to pay were sent for the outcome.
unfoldable pub payments : Text → List ApiCall → ℕ
payments id [] = 0
payments id (call ∷ calls) = pays id call + payments id calls

pub payments-append :
    (id : Text) (xs ys : List ApiCall) → payments id (xs ++ ys) ≡ payments id xs + payments id ys
unfolding payments
payments-append id [] ys = ground arith
payments-append id (x ∷ xs) ys = ground (arith, payments-append id xs ys)

pub outcome_record-id :
    (st : ParticipationState) (id : Text) (a : ProlificArrival) → (outcome_record st id a).id ≡ id
unfolding outcome_record
outcome_record-id st id a = ground arith

pub outcome_record-arrival :
    (st : ParticipationState) (id : Text) (a : ProlificArrival)
    → (outcome_record st id a).arrival ≡ a
unfolding outcome_record
outcome_record-arrival st id a = ground arith

pub outcome_record-batch :
    (st : ParticipationState) (id : Text) (a : ProlificArrival)
    → is_some (truthy (outcome_record st id a).bonus_batch_id) ≡ has_batch st id
unfolding outcome_record has_batch
outcome_record-batch st id a = elim (Option-cases (get id st.memory_prolific_actions)) [
  | inl missing ↦ rw (missing, outcome_record, has_batch) refl
  | inr (action, found) ↦ rw (found, outcome_record, has_batch) refl
]

abbrev pub row_of :
    ParticipationState → Text → Option ProlificArrival → Option ParticipationOutcomeRecord
row_of st id none = none
row_of st id (some a) = some (outcome_record st id a)

find-outcome_records :
    (st : ParticipationState) (id : Text) (m : JsMap Text ProlificArrival)
    → find (λ row. row.id == id) (outcome_records st m) ≡ row_of st id (get id m)
unfolding outcome_records get
find-outcome_records st id [] = refl
find-outcome_records st id ((i, a) ∷ m) = elim (Bool-cases (i == id)) [
  | inl hit ↦
      rw (outcome_record-id st i a, hit)
        (ap (λ k. some (outcome_record st k a)) ((text_eq_iff i id).0 hit))
  | inr miss ↦ rw (outcome_record-id st i a, miss) (find-outcome_records st id m)
]

pub by_id :
    (st : ParticipationState) (id : Text)
    → get_participation_outcome_by_id st id ≡ row_of st id (get id st.prolific_arrivals)
unfolding get_participation_outcome_by_id list_participation_outcomes
by_id st id = find-outcome_records st id st.prolific_arrivals

pub mark_missing :
    (st : ParticipationState) (id : Text) (patch : ActionPatch)
    → get id st.prolific_arrivals ≡ none
    → mark_prolific_action st id patch ≡ st
unfolding mark_prolific_action
mark_missing st id patch missing =
    rw (by_id st id ∙ ap (row_of st id) missing, mark_prolific_action) refl

set_status_found :
    (st : ParticipationState) (identity : ProlificIdentity) (status : ProlificActionStatus)
    (a : ProlificArrival)
    → get (arrival_key identity) st.prolific_arrivals ≡ some a
    → set_status st identity status
      ≡ set_arrival st (arrival_key identity) (record a { prolific_action_status = some status })
unfolding set_status
set_status_found st identity status a found = rw (found, set_status) refl

mark_row :
    (st : ParticipationState) (id : Text) (patch : ActionPatch) (row : ParticipationOutcomeRecord)
    → get_participation_outcome_by_id st id ≡ some row
    → mark_prolific_action st id patch
      ≡ set_status (patched st id patch) row.arrival.identity patch.status
unfolding mark_prolific_action
mark_row st id patch row known = rw (known, mark_prolific_action) refl

pub mark_found :
    (st : ParticipationState) (id : Text) (patch : ActionPatch) (a : ProlificArrival)
    → Consistent st
    → get id st.prolific_arrivals ≡ some a
    → mark_prolific_action st id patch
      ≡ set_arrival
          (patched st id patch)
          id
          (record a { prolific_action_status = some patch.status })
mark_found st id patch a h found =
    let key : id ≡ arrival_key a.identity = (fit_of_found st id a h found).0 in
    mark_row st id patch (outcome_record st id a) (by_id st id ∙ ap (row_of st id) found)
    ∙ ap (λ x. set_status (patched st id patch) x.identity patch.status)
        (outcome_record-arrival st id a)
    ∙ set_status_found (patched st id patch) a.identity patch.status a
        (ap (λ k. get k st.prolific_arrivals) (sym key) ∙ found)
    ∙ ap
        (λ k.
          set_arrival (patched st id patch) k
            (record a { prolific_action_status = some patch.status }))
        (sym key)

-- What a mark does to the batch and to the payability of any outcome.
pub record IsMarked (id : Text) (patch : ActionPatch) (j : Text) (st st' : ParticipationState)
    : Type 0 where
  pub batch : has_batch st j ≡ true → has_batch st' j ≡ true
  pub payable :
      is_payable st' j
      ≡ (if id == j then is_bonus_prepared (some patch.status) else is_payable st j)

truthy_first :
    (p c : Option Text)
    → is_some (truthy c) ≡ true
    → is_some (truthy (first_some (truthy p) c)) ≡ true
truthy_first none c h = h
truthy_first (some []) c h = h
truthy_first (some (x ∷ xs)) c h = refl

patched-has_batch :
    (st : ParticipationState) (id : Text) (patch : ActionPatch) (j : Text)
    → has_batch st j ≡ true
    → has_batch (patched st id patch) j ≡ true
unfolding has_batch patch_action
patched-has_batch st id patch j b = elim (Bool-cases (id == j)) [
  | inl hit ↦
      let b' : has_batch st id ≡ true =
        subst (λ k. has_batch st k ≡ true) (sym ((text_eq_iff id j).0 hit)) b in
      rw (get-put j id _ st.memory_prolific_actions, hit)
        (truthy_first patch.bonus_batch_id
          (or_else (get id st.memory_prolific_actions) no_action).bonus_batch_id b')
  | inr miss ↦ rw (get-put j id _ st.memory_prolific_actions, miss) b
]

bare_first :
    (p c : Option Text)
    → is_some (truthy p) ≡ false
    → is_some (truthy c) ≡ false
    → is_some (truthy (first_some (truthy p) c)) ≡ false
bare_first none c bare h = h
bare_first (some []) c bare h = h
bare_first (some (x ∷ xs)) c bare h = cc

patched-bare :
    (st : ParticipationState) (id : Text) (patch : ActionPatch) (j : Text)
    → is_some (truthy patch.bonus_batch_id) ≡ false
    → has_batch st j ≡ false
    → has_batch (patched st id patch) j ≡ false
unfolding has_batch patch_action
patched-bare st id patch j bare b = elim (Bool-cases (id == j)) [
  | inl hit ↦
      let b' : has_batch st id ≡ false =
        subst (λ k. has_batch st k ≡ false) (sym ((text_eq_iff id j).0 hit)) b in
      rw (get-put j id _ st.memory_prolific_actions, hit)
        (bare_first patch.bonus_batch_id
          (or_else (get id st.memory_prolific_actions) no_action).bonus_batch_id bare b')
  | inr miss ↦ rw (get-put j id _ st.memory_prolific_actions, miss) b
]

pub mark-has_batch :
    (st : ParticipationState) (id : Text) (patch : ActionPatch) (j : Text)
    → Consistent st
    → is_some (truthy patch.bonus_batch_id) ≡ false
    → has_batch st j ≡ false
    → has_batch (mark_prolific_action st id patch) j ≡ false
unfolding has_batch
mark-has_batch st id patch j h bare b = elim (Option-cases (get id st.prolific_arrivals)) [
  | inl missing ↦ rw (mark_missing st id patch missing) b
  | inr (a, found) ↦ rw (mark_found st id patch a h found) (patched-bare st id patch j bare b)
]

set-is_payable :
    (st : ParticipationState) (id : Text) (a : ProlificArrival) (j : Text)
    → is_payable (set_arrival st id a) j
      ≡ (if id == j then is_bonus_prepared a.prolific_action_status else is_payable st j)
unfolding is_payable
set-is_payable st id a j = elim (Bool-cases (id == j)) [
  | inl hit ↦ rw (get-put j id a st.prolific_arrivals, hit) refl
  | inr miss ↦ rw (get-put j id a st.prolific_arrivals, miss) refl
]

pub found-IsMarked :
    (st : ParticipationState) (id : Text) (patch : ActionPatch) (a : ProlificArrival) (j : Text)
    → Consistent st
    → get id st.prolific_arrivals ≡ some a
    → IsMarked id patch j st (mark_prolific_action st id patch)
unfolding has_batch is_payable
found-IsMarked st id patch a j h found = rw (mark_found st id patch a h found) (record {
  batch = patched-has_batch st id patch j;
  payable =
      set-is_payable (patched st id patch) id
        (record a { prolific_action_status = some patch.status }) j;
})
