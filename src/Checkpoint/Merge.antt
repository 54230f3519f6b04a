-- ===== src/Checkpoint/Merge.antt =====
-- checkpoint-merge.ts: `checkpointFromSession`, `acceptsCheckpointState`, `withoutRanking` and
-- `mergeCheckpointIntoSession`, which updates the session in place and is a function of it here.
pub mod Retention
pub mod Staleness
use Prim.Native.Nat.{ℕ}
use gdm_platform.Common.{
  Text, Text-eq, List, [], ◌∷◌, ◌++◌, map, Option, none, some, Bool, true, false, not, ◌&&◌, ◌||◌,
  ltb, leb, if◌then◌else◌, keep, or_else, is_some, distinct, JsMap, spread, get_last?,
}
use gdm_platform.Shared.Interventions.{WorkspaceMode}
use gdm_platform.Shared.Models.{
  Session, Chat, Ranking, RecordedReaction, BehavioralEvent, BehavioralEventType,
}
use gdm_platform.Shared.Dto.{RuntimeCheckpoint, CheckpointSessionRequest}
use gdm_platform.Checkpoint.Keyed.{append_unique, merge_by_key, merge_checkpoint_values}
use gdm_platform.Checkpoint.Rankings.{ranking_key, newest_ranking}
use gdm_platform.Checkpoint.Reactions.{merge_messages, merge_recorded_reactions}
use gdm_platform.Checkpoint.Windows.{dedupe_window_evaluations}

unfoldable pub accepts_checkpoint_state : Option ℕ → ℕ → Bool
accepts_checkpoint_state none stored_revision = true
accepts_checkpoint_state (some incoming_revision) stored_revision =
    leb stored_revision incoming_revision

abbrev is_ranking_move : BehavioralEventType → Bool
is_ranking_move BehavioralEventType.ranking_move = true
is_ranking_move _ = false

abbrev pub is_etherpad : WorkspaceMode → Bool
is_etherpad WorkspaceMode.etherpad = true
is_etherpad _ = false

is_non_empty {ℓ} : {A : Type ℓ} → List A → Bool
is_non_empty [] = false
is_non_empty (x ∷ xs) = true

-- `list ?? []`.
abbrev pub or_empty {ℓ} : {A : Type ℓ} → Option (List A) → List A
or_empty o = or_else o []

-- `session.ranking` after the merge, by the incoming revision and the ranking history before it.
unfoldable pub merged_ranking : Ranking → Option ℕ → List Ranking → List Ranking → Ranking
unfolding newest_ranking is_non_empty
merged_ranking ranking incoming_revision history incoming =
    if is_some incoming_revision || not (is_non_empty history)
    then or_else (get_last? incoming) ranking
    else newest_ranking ranking incoming

redacted_ids : List RecordedReaction → List Text
redacted_ids reactions = map (λ r. r.event_id) (keep (λ r. r.redacted) reactions)

module _ {N : Type 0} where
  unfoldable pub checkpoint_from_session : Session N → RuntimeCheckpoint N
  checkpoint_from_session session = record {
    revision = session.checkpoint_revision;
    messages = session.chat.messages;
    ranking_history = or_empty session.ranking_history;
    interventions = session.interventions;
    behavioral_events = session.behavioral_events;
    contribution_classifications = session.contribution_classifications;
    window_evaluations = some (or_empty session.window_evaluations);
    classification_failures = some (or_empty session.classification_failures);
    processed_event_ids = or_empty session.processed_event_ids;
    redacted_reaction_event_ids = some (or_empty session.redacted_reaction_event_ids);
    reaction_events = some (or_empty session.reaction_events);
    rule_state = or_empty session.runtime_state;
  }

  unfoldable pub without_ranking : CheckpointSessionRequest N → CheckpointSessionRequest N
  without_ranking checkpoint = record checkpoint {
    ranking_history = [];
    behavioral_events = drop_moves checkpoint.behavioral_events;
  }
    where
      drop_moves : Option (List (BehavioralEvent N)) → Option (List (BehavioralEvent N))
      drop_moves none = none
      drop_moves (some events) = some (keep (λ event. not (is_ranking_move event.type)) events)

  -- The body of the merge, for the checkpoint that `withoutRanking` has filtered.
  unfoldable pub merge_filtered : Session N → CheckpointSessionRequest N → Session N
  unfolding accepts_checkpoint_state merged_ranking redacted_ids append_unique merge_by_key
      merge_checkpoint_values merge_messages merge_recorded_reactions dedupe_window_evaluations
      ranking_key
  merge_filtered session checkpoint = record session {
    reaction_events = some reaction_events;
    redacted_reaction_event_ids = some redacted;
    chat = record { messages = merge_messages session.chat.messages checkpoint.messages redacted };
    ranking_history =
        some
          (append_unique ranking_key (or_empty session.ranking_history) checkpoint.ranking_history);
    interventions =
        merge_by_key (λ i. i.id) session.interventions (or_empty checkpoint.interventions);
    behavioral_events =
        merge_checkpoint_values (λ e. e.id) session.behavioral_events
          (or_empty checkpoint.behavioral_events) accepts;
    contribution_classifications =
        merge_checkpoint_values (λ c. c.message_id) session.contribution_classifications
          (or_empty checkpoint.contribution_classifications) accepts;
    window_evaluations = some (
        dedupe_window_evaluations (
          merge_by_key (λ e. e.id) (or_empty session.window_evaluations)
            (or_empty checkpoint.window_evaluations)));
    classification_failures = some (
        merge_checkpoint_values (λ f. f.message_id) (or_empty session.classification_failures)
          (or_empty checkpoint.classification_failures) accepts);
    processed_event_ids = some (
        distinct (or_empty session.processed_event_ids ++ or_empty checkpoint.processed_event_ids));
    runtime_state =
        if accepts
        then some (spread (or_empty session.runtime_state) (or_empty checkpoint.rule_state))
        else session.runtime_state;
    checkpoint_revision =
        if accepts && is_some checkpoint.revision
        then checkpoint.revision
        else session.checkpoint_revision;
    ranking =
        if accepts && is_non_empty checkpoint.ranking_history
        then merged_ranking session.ranking checkpoint.revision (or_empty session.ranking_history)
            checkpoint.ranking_history
        else session.ranking;
  }
    where
      accepts : Bool
      accepts = accepts_checkpoint_state checkpoint.revision (or_else session.checkpoint_revision 0)

      reaction_events : List RecordedReaction
      reaction_events =
          merge_recorded_reactions (or_empty session.reaction_events)
            (or_empty checkpoint.reaction_events)

      redacted : List Text
      redacted = distinct (
          or_empty session.redacted_reaction_event_ids
          ++ (or_empty checkpoint.redacted_reaction_event_ids ++ redacted_ids reaction_events))

  unfoldable pub merge_checkpoint_into_session : Session N → CheckpointSessionRequest N → Session N
  unfolding merge_filtered without_ranking
  merge_checkpoint_into_session session checkpoint = merge_filtered session (
      if is_etherpad session.condition.config.workspace_mode
      then without_ranking checkpoint
      else checkpoint)
