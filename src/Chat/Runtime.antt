-- ===== src/Chat/Runtime.antt =====
-- sessions/session-runtime.ts: the state of a running session and what is recorded in it.
pub mod Restore
pub mod Tidy
pub mod Resume
use Prim.Native.Nat.{ℕ, ◌+◌, max}
use gdm_platform.Common.{
  Text, Text-eq, List, [], ◌∷◌, ◌++◌, Option, none, some, Bool, true, false, any, contains, or_else,
  leb, if◌then◌else◌, JsMap, ◌==◌, spread, distinct, add_distinct,
}
use gdm_platform.Shared.Config.{RawConfig}
use gdm_platform.Shared.Interventions.{InterventionLog, WindowEvaluation}
use gdm_platform.Shared.Models.{
  Message, Ranking, BehavioralEvent, ContributionClassification, ClassificationFailure,
  RecordedReaction, StateValue,
}
use gdm_platform.Shared.Dto.{RuntimeCheckpoint}
use gdm_platform.Checkpoint.Rankings.{truthy}

pub record SessionRuntime (N : Type 0) : Type 0 where
  pub session_id : Text
  pub room_id : Text
  pub condition_id : Text
  pub config : RawConfig N
  pub duration_minutes : ℕ
  pub started_at_ms : ℕ
  pub messages : List Message
  pub ranking_history : List Ranking
  pub interventions : List (InterventionLog N)
  pub behavioral_events : List (BehavioralEvent N)
  pub contribution_classifications : List (ContributionClassification N)
  pub window_evaluations : List (WindowEvaluation N)
  pub classification_failures : List ClassificationFailure
  pub state : JsMap Text StateValue
  pub ended : Bool
  -- The keys of `byId`, whose values are the messages themselves.
  pub by_id : List Text
  pub legacy_reaction_events : List RecordedReaction
  pub legacy_redacted_reaction_event_ids : List Text
  pub processed_event_ids : List Text
  pub checkpoint_revision : ℕ
  pub last_window_boundary_ms : ℕ

-- `list[findIndex(key)] = item`, or a push where no item has the key.
unfoldable pub replace_or_push {ℓ} : {T : Type ℓ} → (T → Text) → T → List T → List T
replace_or_push key item [] = item ∷ []
replace_or_push key item (x ∷ xs) =
    if key x == key item then item ∷ xs else x ∷ replace_or_push key item xs

-- `ranking.eventId && rankingHistory.some((item) => item.eventId === ranking.eventId)`.
unfoldable pub has_ranking_event : List Ranking → Option Text → Bool
has_ranking_event history event_id = elim (truthy event_id) [
  | none ↦ false
  | some id ↦ any (λ item. same_event item.event_id id) history
]
  where
    same_event : Option Text → Text → Bool
    same_event none id = false
    same_event (some other) id = other == id

module _ {N : Type 0} where
  unfoldable pub record_message : SessionRuntime N → Message → SessionRuntime N
  unfolding contains
  record_message runtime message =
      if contains runtime.by_id message.id then runtime else record runtime {
        messages = runtime.messages ++ message ∷ [];
        by_id = runtime.by_id ++ message.id ∷ [];
      }

  unfoldable pub record_ranking : SessionRuntime N → Ranking → SessionRuntime N
  unfolding has_ranking_event
  record_ranking runtime ranking =
      if has_ranking_event runtime.ranking_history ranking.event_id
      then runtime
      else record runtime { ranking_history = runtime.ranking_history ++ ranking ∷ [] }

  unfoldable pub record_behavior : SessionRuntime N → BehavioralEvent N → SessionRuntime N
  record_behavior runtime event =
      if any (λ item. item.id == event.id) runtime.behavioral_events
      then runtime
      else record runtime { behavioral_events = runtime.behavioral_events ++ event ∷ [] }

  unfoldable pub record_classification :
      SessionRuntime N → ContributionClassification N → SessionRuntime N
  unfolding replace_or_push
  record_classification runtime classification = record runtime {
    contribution_classifications =
        replace_or_push (λ c. c.message_id) classification runtime.contribution_classifications;
  }

  unfoldable pub record_window_evaluation : SessionRuntime N → WindowEvaluation N → SessionRuntime N
  record_window_evaluation runtime evaluation = record runtime {
    window_evaluations = runtime.window_evaluations ++ evaluation ∷ [];
  }

  unfoldable pub claim_window_boundary : SessionRuntime N → ℕ → SessionRuntime N × Bool
  claim_window_boundary runtime window_end_ms =
      if leb window_end_ms runtime.last_window_boundary_ms
      then (runtime, false)
      else (record runtime { last_window_boundary_ms = window_end_ms }, true)

  unfoldable pub record_classification_failure :
      SessionRuntime N → ClassificationFailure → SessionRuntime N
  unfolding replace_or_push
  record_classification_failure runtime failure = record runtime {
    classification_failures =
        replace_or_push (λ f. f.message_id) failure runtime.classification_failures;
  }

  unfoldable pub has_processed : SessionRuntime N → Text → Bool
  unfolding contains
  has_processed runtime event_id = contains runtime.processed_event_ids event_id

  unfoldable pub mark_processed : SessionRuntime N → Text → SessionRuntime N
  unfolding contains
  mark_processed runtime event_id = record runtime {
    processed_event_ids =
        if contains runtime.processed_event_ids event_id
        then runtime.processed_event_ids
        else runtime.processed_event_ids ++ event_id ∷ [];
  }

  unfoldable pub checkpoint : SessionRuntime N → SessionRuntime N × RuntimeCheckpoint N
  checkpoint runtime = (
    record runtime { checkpoint_revision = runtime.checkpoint_revision + 1 },
    record {
      revision = some (runtime.checkpoint_revision + 1);
      messages = runtime.messages;
      ranking_history = runtime.ranking_history;
      interventions = runtime.interventions;
      behavioral_events = runtime.behavioral_events;
      contribution_classifications = runtime.contribution_classifications;
      window_evaluations = some runtime.window_evaluations;
      classification_failures = some runtime.classification_failures;
      processed_event_ids = runtime.processed_event_ids;
      redacted_reaction_event_ids = some runtime.legacy_redacted_reaction_event_ids;
      reaction_events = some runtime.legacy_reaction_events;
      rule_state = runtime.state;
    },
  )

  unfoldable pub record_intervention : SessionRuntime N → InterventionLog N → SessionRuntime N
  record_intervention runtime intervention = record runtime {
    interventions = runtime.interventions ++ intervention ∷ [];
  }

  unfoldable pub mark_ended : SessionRuntime N → SessionRuntime N
  mark_ended runtime = record runtime { ended = true }
