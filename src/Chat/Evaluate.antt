-- ===== src/Chat/Evaluate.antt =====
-- rules/bot-rules.ts: `onWindowElapsed`, the evaluation of a closed window and the nudge.
use Prim.Native.Nat.{ℕ, max}
use gdm_platform.Common.{
  Text, Text-eq, List, [], ◌∷◌, map, keep, take, sort, Option, none, some, Bool, true, ◌||◌, ◌&&◌,
  not, ◌==◌,
}
use gdm_platform.Shared.Timestamp.{Timestamp, to_iso}
use gdm_platform.Shared.Number.{Number, lt, larger, minutes_ms}
use gdm_platform.Shared.Interventions.{
  InterventionConfig, ContributionShare, InterventionTarget, InterventionLog, InterventionAudience,
  WindowEvaluation, WindowOutcome, LlmMode,
}
use gdm_platform.Chat.Runtime.{SessionRuntime}
use gdm_platform.Chat.Window.{Membership, resolve_llm_mode, window_index}
use gdm_platform.Chat.Message.{NudgeMessageContext}

-- What the rules ask of their surroundings in one evaluation.
pub record Surroundings : Type 0 where
  -- `process.env.LLM_MODE`.
  pub env_mode : Option Text
  -- The homeserver's answers to `getJoinedMemberIds`.
  pub joined : ℕ → Option (List Text)
  -- Whether the homeserver takes the message.
  pub delivers : Bool
  pub generator : Option (NudgeMessageContext → Option Text)
  -- `a.localeCompare(b) <= 0`.
  pub locale_le : Text → Text → Bool
  -- The two calls of `randomUUID` and the clock.
  pub evaluation_id : Text
  pub intervention_id : Text
  pub now : Timestamp

pub data Delivery : Type 0 where
  to_everyone : (body : Text) → Delivery
  to_one : (recipient body : Text) → Delivery

pub record Elapsed (N : Type 0) : Type 0 where
  pub members : Membership
  pub runtime : SessionRuntime N
  pub deliveries : List Delivery
  -- The promise was rejected.
  pub failed : Bool

-- `Partial<WindowEvaluation>`, as the branches fill it.
pub record Extras (N : Type 0) : Type 0 where
  pub split : List (ContributionShare N)
  pub candidates : List InterventionTarget
  pub max_dominance : Option N
  pub nudge : Option Text

abbrev pub no_extras : {N : Type 0} → Extras N
no_extras = record { split = []; candidates = []; max_dominance = none; nudge = none }

abbrev pub to_target : {N : Type 0} → ContributionShare N → InterventionTarget
to_target entry = record { user_id = entry.user_id; identity_name = entry.identity_name }

abbrev pub failure : {N : Type 0} → Membership → SessionRuntime N → Elapsed N
failure members runtime = record {
  members = members;
  runtime = runtime;
  deliveries = [];
  failed = true;
}

module _ {N : Type 0} ⦃n : Number N⦄ where
  -- `b.dominanceScore - a.dominanceScore || b.score - a.score` is at most 0.
  abbrev pub dominates : ContributionShare N → ContributionShare N → Bool
  dominates a b =
      lt b.dominance_score a.dominance_score
      || (n.le b.dominance_score a.dominance_score && n.le b.score a.score)

  unfoldable pub over_threshold :
      InterventionConfig N → List (ContributionShare N) → List (ContributionShare N)
  unfolding sort
  over_threshold config split =
      sort dominates
        (keep (λ entry. n.le config.contribution_threshold entry.dominance_score) split)

  unfoldable pub max_dominance_score : Option N → List (ContributionShare N) → Option N
  max_dominance_score max [] = max
  max_dominance_score none (entry ∷ split) = max_dominance_score (some entry.dominance_score) split
  max_dominance_score (some max) (entry ∷ split) =
      max_dominance_score (some (larger max entry.dominance_score)) split

  -- `a.share - b.share || a.identityName.localeCompare(b.identityName)` is at most 0.
  abbrev quieter : (Text → Text → Bool) → ContributionShare N → ContributionShare N → Bool
  quieter locale_le a b =
      lt a.share b.share || (n.le a.share b.share && locale_le a.identity_name b.identity_name)

  unfoldable pub quietest_members :
      (Text → Text → Bool)
      → List (ContributionShare N)
      → ContributionShare N
      → N
      → List InterventionTarget
  quietest_members locale_le split target threshold = map to_target (
      take 2 (
        sort (quieter locale_le) (
          keep
            (λ entry. not (entry.user_id == target.user_id) && lt entry.dominance_score threshold)
            split)))

  unfoldable pub build_log :
      Surroundings
      → SessionRuntime N
      → InterventionConfig N
      → LlmMode
      → InterventionAudience
      → List (ContributionShare N)
      → ContributionShare N
      → List InterventionTarget
      → Text
      → InterventionLog N
  build_log around runtime config llm_mode audience split target quiet_members message = record {
    id = around.intervention_id;
    session_id = runtime.session_id;
    room_id = runtime.room_id;
    condition_id = runtime.condition_id;
    mode = config.intervention_mode;
    audience = audience;
    timestamp = around.now;
    threshold = config.contribution_threshold;
    llm_mode = llm_mode;
    contribution_window_minutes = config.contribution_window_minutes;
    contribution_split = split;
    targets = to_target target ∷ [];
    quiet_members = quiet_members;
    message = message;
  }

  unfoldable pub window_evaluation :
      Surroundings
      → SessionRuntime N
      → InterventionConfig N
      → (window_end_ms : ℕ) → WindowOutcome
      → Extras N
      → WindowEvaluation N
  window_evaluation around runtime config window_end_ms outcome extras = record {
    id = around.evaluation_id;
    session_id = runtime.session_id;
    condition_id = runtime.condition_id;
    window_index = window_index runtime.started_at_ms config window_end_ms;
    window_start =
        n.to_date (n.sub (n.of_ℕ window_end_ms) (minutes_ms config.contribution_window_minutes));
    window_end = to_iso window_end_ms;
    contribution_window_minutes = config.contribution_window_minutes;
    llm_mode = resolve_llm_mode around.env_mode config;
    threshold = config.contribution_threshold;
    outcome = outcome;
    contribution_split = extras.split;
    candidate_targets = extras.candidates;
    max_dominance_score = extras.max_dominance;
    intervention_id = extras.nudge;
  }
