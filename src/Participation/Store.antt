-- ===== src/Participation/Store.antt =====
-- store/participation.store.ts without a database: the operations that end a participation.
use Prim.Native.Nat.{ℕ}
use gdm_platform.Common.{
  Text, Text-eq, Option, none, some, Bool, false, not, ◌||◌, if◌then◌else◌, leb, get, is_some,
}
use gdm_platform.Shared.Timestamp.{Timestamp, to_iso}
use gdm_platform.Shared.Models.{
  ProlificIdentity, ProlificArrival, ParticipationStage, ParticipationOutcome, CompensationKind,
  ProlificActionStatus, ParticipationOutcomeRecord,
}
use gdm_platform.Participation.Rules.{
  Termination, arrival_key, elapsed_seconds_since, record_of, terminate_arrival,
}
use gdm_platform.Participation.State.{ParticipationState, set_arrival, record_prolific_arrival}

-- `{ id, ...arrival, ...this.memoryProlificActions.get(id) }`.
unfoldable pub outcome_record :
    ParticipationState → Text → ProlificArrival → ParticipationOutcomeRecord
outcome_record st id arrival = elim (get id st.memory_prolific_actions) [
  | none ↦ record_of id arrival
  | some action ↦ record {
    id = id;
    arrival = arrival;
    return_requested_at = action.return_requested_at;
    bonus_batch_id = action.bonus_batch_id;
    payment_submitted_at = action.payment_submitted_at;
    action_error = action.action_error;
  }
]

unfoldable pub get_participation_outcome :
    ParticipationState → ProlificIdentity → Option ParticipationOutcomeRecord
unfolding outcome_record
get_participation_outcome st identity = elim (get (arrival_key identity) st.prolific_arrivals) [
  | none ↦ none
  | some arrival ↦ some (outcome_record st (arrival_key identity) arrival)
]

-- The result is `undefined` only if the arrival were missing, which it never is.
unfoldable pub terminate_prolific_participation :
    ParticipationState
    → ProlificIdentity
    → Termination
    → ℕ
    → ParticipationState × Option ParticipationOutcomeRecord
unfolding record_prolific_arrival get_participation_outcome terminate_arrival
terminate_prolific_participation st identity termination now =
    let (st', arrival) = record_prolific_arrival st identity now in
    let ended = terminate_arrival arrival now termination in
    if is_some arrival.outcome then (st', get_participation_outcome st' identity) else (
      set_arrival st' (arrival_key identity) ended,
      some (record_of (arrival_key identity) ended),
    )

-- `Date.parse(lastSeenAt) > cutoff.getTime()`, false for NaN.
abbrev pub seen_after : ℕ → Timestamp → Bool
seen_after cutoff t = elim t.time [ none ↦ false | some ms ↦ not (leb ms cutoff) ]

unfoldable pub terminate_stale_prolific_participation :
    ParticipationState
    → ProlificIdentity
    → ℕ
    → Termination
    → ℕ
    → ParticipationState × Option ParticipationOutcomeRecord
unfolding terminate_arrival
terminate_stale_prolific_participation st identity cutoff termination now =
    elim (get (arrival_key identity) st.prolific_arrivals) [
      | none ↦ (st, none)
      | some arrival ↦
          let ended = terminate_arrival arrival now termination in
          if is_some arrival.outcome || seen_after cutoff arrival.last_seen_at
          then (st, none)
          else (
            set_arrival st (arrival_key identity) ended,
            some (record_of (arrival_key identity) ended),
          )
    ]

unfoldable pub complete_arrival : ProlificArrival → ℕ → ProlificArrival
unfolding elapsed_seconds_since
complete_arrival arrival now = record arrival {
  stage = ParticipationStage.done;
  stage_updated_at = to_iso now;
  last_seen_at = to_iso now;
  outcome = some ParticipationOutcome.completed;
  ended_at = some (to_iso now);
  elapsed_seconds = elapsed_seconds_since arrival.arrived_at now;
  compensation_kind = some CompensationKind.full;
  prolific_action_status = some ProlificActionStatus.not_required;
}

unfoldable pub complete_prolific_participation :
    ParticipationState
    → ProlificIdentity
    → ℕ
    → ParticipationState × Option ParticipationOutcomeRecord
unfolding record_prolific_arrival get_participation_outcome complete_arrival
complete_prolific_participation st identity now =
    let (st', arrival) = record_prolific_arrival st identity now in
    let done = complete_arrival arrival now in
    if is_some arrival.outcome
    then (st', get_participation_outcome st' identity)
    else (set_arrival st' (arrival_key identity) done, some (record_of (arrival_key identity) done))
