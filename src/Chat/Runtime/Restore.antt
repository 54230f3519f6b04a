-- ===== src/Chat/Runtime/Restore.antt =====
-- sessions/session-runtime.ts: `restore`, a runtime from a checkpoint, and the claims of window
-- boundaries before and after.
use Prim.Native.Nat.{ℕ, max}
use gdm_platform.Common.{
  Text, Text-eq, List, [], ◌∷◌, ◌++◌, map, add_distinct, Option, none, some, false, or_else, spread,
}
use gdm_platform.Shared.Interventions.{WindowEvaluation}
use gdm_platform.Shared.Config.{RawConfig}
use gdm_platform.Shared.Dto.{RuntimeCheckpoint}
use gdm_platform.Checkpoint.Merge.{or_empty}
use gdm_platform.Chat.Runtime.{SessionRuntime, checkpoint}

-- `Math.max(last, end)`, where the end parses.
abbrev pub later : ℕ → Option ℕ → ℕ
later last none = last
later last (some end_ms) = max last end_ms

module _ {N : Type 0} where
  -- The latest end of a window that parses.
  unfoldable pub last_boundary : ℕ → List (WindowEvaluation N) → ℕ
  last_boundary last [] = last
  last_boundary last (evaluation ∷ evaluations) =
      last_boundary (later last evaluation.window_end.time) evaluations

  unfoldable pub restore : SessionRuntime N → RuntimeCheckpoint N → SessionRuntime N
  unfolding last_boundary
  restore runtime checkpoint = record runtime {
    checkpoint_revision = or_else checkpoint.revision 0;
    legacy_reaction_events = runtime.legacy_reaction_events ++ or_empty checkpoint.reaction_events;
    legacy_redacted_reaction_event_ids =
        runtime.legacy_redacted_reaction_event_ids
        ++ or_empty checkpoint.redacted_reaction_event_ids;
    messages = runtime.messages ++ checkpoint.messages;
    by_id = add_distinct runtime.by_id (map (λ m. m.id) (runtime.messages ++ checkpoint.messages));
    ranking_history = runtime.ranking_history ++ checkpoint.ranking_history;
    interventions = runtime.interventions ++ checkpoint.interventions;
    behavioral_events = runtime.behavioral_events ++ checkpoint.behavioral_events;
    contribution_classifications =
        runtime.contribution_classifications ++ checkpoint.contribution_classifications;
    window_evaluations = runtime.window_evaluations ++ or_empty checkpoint.window_evaluations;
    last_window_boundary_ms =
        last_boundary runtime.last_window_boundary_ms
          (runtime.window_evaluations ++ or_empty checkpoint.window_evaluations);
    classification_failures =
        runtime.classification_failures ++ or_empty checkpoint.classification_failures;
    processed_event_ids = add_distinct runtime.processed_event_ids checkpoint.processed_event_ids;
    state = spread runtime.state checkpoint.rule_state;
  }

  unfoldable pub new_runtime :
      (session_id room_id condition_id : Text)
      → RawConfig N
      → (duration_minutes started_at_ms : ℕ) → SessionRuntime N
  new_runtime session_id room_id condition_id config duration_minutes started_at_ms = record {
    session_id = session_id;
    room_id = room_id;
    condition_id = condition_id;
    config = config;
    duration_minutes = duration_minutes;
    started_at_ms = started_at_ms;
    messages = [];
    ranking_history = [];
    interventions = [];
    behavioral_events = [];
    contribution_classifications = [];
    window_evaluations = [];
    classification_failures = [];
    state = [];
    ended = false;
    by_id = [];
    legacy_reaction_events = [];
    legacy_redacted_reaction_event_ids = [];
    processed_event_ids = [];
    checkpoint_revision = 0;
    last_window_boundary_ms = 0;
  }
