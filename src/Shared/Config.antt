-- ===== src/Shared/Config.antt =====
-- A condition's configuration as it is stored, with fields missing, and its completion with
-- `DEFAULT_INTERVENTION_CONFIG` (interventions.ts; `normalizeConfig` of rules/bot-rules.ts).
use gdm_platform.Common.{Text, text, Option, some, or_else}
use gdm_platform.Shared.Number.{Number, larger, zero_number, minutes_ms}
use gdm_platform.Shared.Interventions.{
  InterventionConfig, InterventionMode, WorkspaceMode, LlmMode, normalize_intervention_mode,
}

pub record RawConfig (N : Type 0) : Type 0 where
  pub workspace_mode : Option WorkspaceMode
  pub intervention_mode : Option Text
  pub contribution_threshold : Option N
  pub protected_start_minutes : Option N
  pub protected_end_minutes : Option N
  pub contribution_window_minutes : Option N
  pub score_messages : Option N
  pub score_words : Option N
  pub dominance_share : Option N
  pub dominance_meaningfulness : Option N
  pub llm_mode : Option LlmMode

module _ {N : Type 0} ⦃n : Number N⦄ where
  unfoldable pub default_config : InterventionConfig N
  default_config = record {
    workspace_mode = WorkspaceMode.ranking;
    intervention_mode = InterventionMode.public;
    contribution_threshold = n.tenths 4;
    protected_start_minutes = n.of_ℕ 3;
    protected_end_minutes = n.of_ℕ 2;
    contribution_window_minutes = n.of_ℕ 4;
    score_weights = record { messages = n.of_ℕ 1; words = n.hundredths 5 };
    dominance_weights = record { share = n.tenths 9; meaningfulness = n.tenths 1 };
    llm_mode = some LlmMode.off;
  }

  unfoldable pub normalize_config : RawConfig N → InterventionConfig N
  unfolding default_config
  normalize_config config = record {
    workspace_mode = or_else config.workspace_mode default_config.workspace_mode;
    intervention_mode =
        normalize_intervention_mode (or_else config.intervention_mode (text "public"));
    contribution_threshold =
        or_else config.contribution_threshold default_config.contribution_threshold;
    protected_start_minutes =
        or_else config.protected_start_minutes default_config.protected_start_minutes;
    protected_end_minutes =
        or_else config.protected_end_minutes default_config.protected_end_minutes;
    contribution_window_minutes =
        or_else config.contribution_window_minutes default_config.contribution_window_minutes;
    score_weights = record {
      messages = or_else config.score_messages default_config.score_weights.messages;
      words = or_else config.score_words default_config.score_weights.words;
    };
    dominance_weights = record {
      share = or_else config.dominance_share default_config.dominance_weights.share;
      meaningfulness =
          or_else config.dominance_meaningfulness default_config.dominance_weights.meaningfulness;
    };
    llm_mode = some (or_else config.llm_mode LlmMode.off);
  }

  -- `protectedEndMs`, of a complete configuration.
  unfoldable pub protected_end_ms : InterventionConfig N → N
  protected_end_ms config = minutes_ms (larger zero_number config.protected_end_minutes)
