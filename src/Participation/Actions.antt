-- ===== src/Participation/Actions.antt =====
-- store/participation.store.ts without a database: the queued Prolific actions and the links from
-- arrivals to seats.
use Prim.Native.Nat.{ℕ}
use gdm_platform.Common.{
  Text, Text-eq, List, [], ◌∷◌, Option, none, some, Bool, true, false, ◌&&◌, take, find, keep,
  JsMap, get, put, values, or_else, first_some, is_some, ◌==◌,
}
use gdm_platform.Shared.Timestamp.{Timestamp}
use gdm_platform.Shared.Models.{
  ProlificIdentity, ProlificArrival, ProlificActionStatus, ParticipationOutcomeRecord,
}
use gdm_platform.Checkpoint.Rankings.{truthy}
use gdm_platform.Participation.Rules.{arrival_key}
use gdm_platform.Participation.State.{ParticipationState, MemoryAction, set_arrival, time_le}
use gdm_platform.Participation.Store.{outcome_record}

unfoldable pub outcome_records :
    ParticipationState → JsMap Text ProlificArrival → List ParticipationOutcomeRecord
unfolding outcome_record
outcome_records st [] = []
outcome_records st ((id, arrival) ∷ rest) = outcome_record st id arrival ∷ outcome_records st rest

unfoldable pub list_participation_outcomes : ParticipationState → List ParticipationOutcomeRecord
unfolding outcome_records
list_participation_outcomes st = outcome_records st st.prolific_arrivals

unfoldable pub get_participation_outcome_by_id :
    ParticipationState → Text → Option ParticipationOutcomeRecord
unfolding list_participation_outcomes
get_participation_outcome_by_id st id = find (λ row. row.id == id) (list_participation_outcomes st)

-- The inner option of the last two fields is `null`.
pub record ActionPatch : Type 0 where
  pub status : ProlificActionStatus
  pub return_requested_at : Option Timestamp
  pub bonus_batch_id : Option Text
  pub payment_submitted_at : Option Timestamp
  pub action_error : Option (Option Text)
  pub next_attempt_at : Option (Option Timestamp)

abbrev pub no_action : MemoryAction
no_action = record {
  return_requested_at = none;
  bonus_batch_id = none;
  payment_submitted_at = none;
  action_error = none;
  next_attempt_at = none;
}

unfoldable pub patch_action : MemoryAction → ActionPatch → MemoryAction
patch_action current patch = record {
  return_requested_at = first_some patch.return_requested_at current.return_requested_at;
  bonus_batch_id = first_some (truthy patch.bonus_batch_id) current.bonus_batch_id;
  payment_submitted_at = first_some patch.payment_submitted_at current.payment_submitted_at;
  action_error = or_else patch.action_error current.action_error;
  next_attempt_at = or_else patch.next_attempt_at current.next_attempt_at;
}

-- The state with the patched action row.
abbrev pub patched : ParticipationState → Text → ActionPatch → ParticipationState
patched st arrival_id patch = record st {
  memory_prolific_actions =
      put arrival_id
        (patch_action (or_else (get arrival_id st.memory_prolific_actions) no_action) patch)
        st.memory_prolific_actions;
}

unfoldable pub set_status :
    ParticipationState → ProlificIdentity → ProlificActionStatus → ParticipationState
set_status st identity status = elim (get (arrival_key identity) st.prolific_arrivals) [
  | none ↦ st
  | some arrival ↦
      set_arrival st (arrival_key identity)
        (record arrival { prolific_action_status = some status })
]

unfoldable pub mark_prolific_action : ParticipationState → Text → ActionPatch → ParticipationState
unfolding get_participation_outcome_by_id patch_action set_status
mark_prolific_action st arrival_id patch = elim (get_participation_outcome_by_id st arrival_id) [
  | none ↦ st
  | some outcome ↦ set_status (patched st arrival_id patch) outcome.arrival.identity patch.status
]

abbrev is_due_status : Option ProlificActionStatus → Bool
is_due_status (some ProlificActionStatus.pending) = true
is_due_status (some ProlificActionStatus.failed) = true
is_due_status _ = false

unfoldable pub is_due : ParticipationState → ℕ → ParticipationOutcomeRecord → Bool
is_due st now outcome =
    is_some outcome.outcome
    && is_due_status outcome.prolific_action_status
    && reached (get outcome.id st.memory_prolific_actions)
  where
    reached : Option MemoryAction → Bool
    reached none = true
    reached (some action) = elim action.next_attempt_at [ none ↦ true | some t ↦ time_le t now ]

unfoldable pub due_prolific_actions : ParticipationState → ℕ → ℕ → List ParticipationOutcomeRecord
unfolding is_due list_participation_outcomes
due_prolific_actions st limit now =
    take limit (keep (is_due st now) (list_participation_outcomes st))

unfoldable pub link_prolific_arrival :
    ParticipationState → ProlificIdentity → Text → ParticipationState
link_prolific_arrival st identity participant_record_id =
    elim (get (arrival_key identity) st.prolific_arrivals) [
      | none ↦ st
      | some arrival ↦
          set_arrival st (arrival_key identity)
            (record arrival { participant_record_id = some participant_record_id })
    ]

unfoldable pub list_prolific_arrivals : ParticipationState → List ProlificArrival
list_prolific_arrivals st = values st.prolific_arrivals
