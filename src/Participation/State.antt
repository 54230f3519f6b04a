-- ===== src/Participation/State.antt =====
-- store/participation.store.ts without a database: the arrivals and their milestones. Each
-- operation takes the time at which it runs, in milliseconds.
use Prim.Native.Nat.{ℕ}
use gdm_platform.Common.{
  Text, Text-eq, List, Option, none, some, Bool, true, false, not, ◌&&◌, if◌then◌else◌, leb, take,
  keep, JsMap, get, put, values, sort, or_else, is_some,
}
use gdm_platform.Shared.Timestamp.{Timestamp, to_iso}
use gdm_platform.Shared.Models.{ProlificIdentity, ProlificArrival, ParticipationStage}
use gdm_platform.Participation.Rules.{stage_index, arrival_key}

pub record MemoryAction : Type 0 where
  pub return_requested_at : Option Timestamp
  pub bonus_batch_id : Option Text
  pub payment_submitted_at : Option Timestamp
  pub action_error : Option Text
  pub next_attempt_at : Option Timestamp

pub record ParticipationState : Type 0 where
  pub prolific_arrivals : JsMap Text ProlificArrival
  pub memory_prolific_actions : JsMap Text MemoryAction

-- The stages that a request may record: all but `done` and `terminated`.
pub data Milestone : Type 0 where
  arrived consent entry waiting chat exit : Milestone

abbrev pub stage_of : Milestone → ParticipationStage
stage_of Milestone.arrived = ParticipationStage.arrived
stage_of Milestone.consent = ParticipationStage.consent
stage_of Milestone.entry = ParticipationStage.entry
stage_of Milestone.waiting = ParticipationStage.waiting
stage_of Milestone.chat = ParticipationStage.chat
stage_of Milestone.exit = ParticipationStage.exit

abbrev pub is_active_stage : ParticipationStage → Bool
is_active_stage ParticipationStage.done = false
is_active_stage ParticipationStage.terminated = false
is_active_stage _ = true

-- `new Date(text).getTime() <= limit`, false for NaN.
abbrev pub time_le : Timestamp → ℕ → Bool
time_le t limit = elim t.time [ none ↦ false | some ms ↦ leb ms limit ]

unfoldable pub new_arrival : ProlificIdentity → ℕ → ProlificArrival
new_arrival identity now = record {
  identity = identity;
  arrived_at = to_iso now;
  participant_record_id = none;
  stage = ParticipationStage.arrived;
  stage_updated_at = to_iso now;
  last_seen_at = to_iso now;
  outcome = none;
  outcome_reason = none;
  ended_at = none;
  elapsed_seconds = none;
  compensation_kind = none;
  compensation_amount_pence = none;
  prolific_action_status = none;
}

abbrev pub set_arrival : ParticipationState → Text → ProlificArrival → ParticipationState
set_arrival st key arrival = record st { prolific_arrivals = put key arrival st.prolific_arrivals }

unfoldable pub record_prolific_arrival :
    ParticipationState → ProlificIdentity → ℕ → ParticipationState × ProlificArrival
unfolding new_arrival
record_prolific_arrival st identity now = elim (get (arrival_key identity) st.prolific_arrivals) [
  | some existing ↦ (st, existing)
  | none ↦
      (set_arrival st (arrival_key identity) (new_arrival identity now), new_arrival identity now)
]

unfoldable pub get_prolific_arrival : ParticipationState → ProlificIdentity → Option ProlificArrival
get_prolific_arrival st identity = get (arrival_key identity) st.prolific_arrivals

-- Both texts are ISO dates, which `localeCompare` orders as their times.
abbrev pub seen_le : ProlificArrival → ProlificArrival → Bool
seen_le a b = leb (or_else a.last_seen_at.time 0) (or_else b.last_seen_at.time 0)

abbrev pub is_stale : ℕ → ProlificArrival → Bool
is_stale cutoff arrival =
    not (is_some arrival.outcome)
    && is_active_stage arrival.stage
    && time_le arrival.last_seen_at cutoff

unfoldable pub list_stale_prolific_arrivals : ParticipationState → ℕ → ℕ → List ProlificArrival
list_stale_prolific_arrivals st cutoff limit =
    take limit (sort seen_le (keep (is_stale cutoff) (values st.prolific_arrivals)))

-- What a heartbeat at `stage` makes of an arrival that has no outcome.
unfoldable pub advance : ProlificArrival → ParticipationStage → ℕ → ProlificArrival
unfolding stage_index
advance arrival stage now =
    if leb (stage_index arrival.stage) (stage_index stage)
    then record arrival { stage = stage; stage_updated_at = to_iso now; last_seen_at = to_iso now }
    else record arrival { last_seen_at = to_iso now }

unfoldable pub record_participation_stage :
    ParticipationState → ProlificIdentity → Milestone → ℕ → ParticipationState × ProlificArrival
unfolding record_prolific_arrival advance
record_participation_stage st identity milestone now =
    let (st', arrival) = record_prolific_arrival st identity now in
    if is_some arrival.outcome then (st', arrival) else (
      set_arrival st' (arrival_key identity) (advance arrival (stage_of milestone) now),
      advance arrival (stage_of milestone) now,
    )
