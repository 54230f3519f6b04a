-- ===== src/Shared/Dto.antt =====
-- packages/shared/src/dto.ts: the snapshots that the Chat Service hands to the Session Manager.
use Prim.Native.Nat.{ℕ}
use gdm_platform.Common.{Text, Option, List, JsMap}
use gdm_platform.Shared.Interventions.{InterventionLog, WindowEvaluation}
use gdm_platform.Shared.Models.{
  Message, Ranking, BehavioralEvent, ContributionClassification, ClassificationFailure,
  RecordedReaction, StateValue,
}

pub record RuntimeCheckpoint (N : Type 0) : Type 0 where
  pub revision : Option ℕ
  pub messages : List Message
  pub ranking_history : List Ranking
  pub interventions : List (InterventionLog N)
  pub behavioral_events : List (BehavioralEvent N)
  pub contribution_classifications : List (ContributionClassification N)
  pub window_evaluations : Option (List (WindowEvaluation N))
  pub classification_failures : Option (List ClassificationFailure)
  pub processed_event_ids : List Text
  pub redacted_reaction_event_ids : Option (List Text)
  pub reaction_events : Option (List RecordedReaction)
  pub rule_state : JsMap Text StateValue

-- `FinalizeSessionRequest`, which is also `CheckpointSessionRequest`.
pub record CheckpointSessionRequest (N : Type 0) : Type 0 where
  pub revision : Option ℕ
  pub messages : List Message
  pub ranking_history : List Ranking
  pub interventions : Option (List (InterventionLog N))
  pub behavioral_events : Option (List (BehavioralEvent N))
  pub contribution_classifications : Option (List (ContributionClassification N))
  pub window_evaluations : Option (List (WindowEvaluation N))
  pub classification_failures : Option (List ClassificationFailure)
  pub processed_event_ids : Option (List Text)
  pub redacted_reaction_event_ids : Option (List Text)
  pub reaction_events : Option (List RecordedReaction)
  pub rule_state : Option (JsMap Text StateValue)
