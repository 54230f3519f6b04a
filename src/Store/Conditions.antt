-- ===== src/Store/Conditions.antt =====
-- store/conditions.ts: `seedConditions`, `normalizeCondition` and the bounds it puts on numbers.
pub mod Bounds
use Prim.Native.Nat.{ℕ, min, max}
use gdm_platform.Common.{
  Text, text, List, [], ◌∷◌, Option, none, some, Bool, true, false, or_else, first_some, take, map,
}
use gdm_platform.Shared.Interventions.{
  InterventionConfig, WorkspaceMode, LlmMode, normalize_intervention_mode,
}
use gdm_platform.Shared.Words.{trim}
use gdm_platform.Shared.Number.{Number, larger, smaller}
use gdm_platform.Shared.Config.{RawConfig, default_config}
use gdm_platform.Shared.Models.{Condition}

-- A condition as an administrator sends it or as it was stored. A number that is missing or not
-- finite is `none`, and so is a mode that the program does not know.
pub record ConditionInput (N : Type 0) : Type 0 where
  pub id : Option Text
  pub name : Option Text
  pub active : Option Bool
  pub goal : Option N
  pub duration_minutes : Option N
  pub group_size : Option N
  pub config : RawConfig N

-- `String(id ?? "").trim().slice(0, length)`.
unfoldable pub trimmed : Option Text → ℕ → Text
unfolding trim
trimmed s length = take length (trim (or_else s []))

module _ {N : Type 0} ⦃n : Number N⦄ where
  -- `value` is `none` where `Number.isFinite` is false.
  unfoldable pub clamp_non_negative : Option N → N → N → N
  clamp_non_negative none fallback maximum = fallback
  clamp_non_negative (some value) fallback maximum = larger (n.of_ℕ 0) (smaller maximum value)

  unfoldable pub clamp_minutes : Option N → N → N → N
  clamp_minutes none fallback maximum = fallback
  clamp_minutes (some value) fallback maximum = larger (n.tenths 1) (smaller maximum value)

  unfoldable pub clamp_fraction : Option N → N → N
  clamp_fraction none fallback = fallback
  clamp_fraction (some value) fallback = larger (n.hundredths 1) (smaller (n.of_ℕ 1) value)

  -- The bounds are not negative, so that it is the same whether `Math.round` is cut at 0 first.
  unfoldable pub clamp_int : Option N → ℕ → ℕ → ℕ
  clamp_int none lowest highest = lowest
  clamp_int (some value) lowest highest = max lowest (min highest (n.round value))

  -- `DEFAULT_INTERVENTION_CONFIG`.
  abbrev pub defaults : InterventionConfig N
  defaults = default_config

  unfoldable pub normalize_condition : ConditionInput N → Condition N
  unfolding clamp_non_negative clamp_minutes clamp_fraction clamp_int trimmed default_config
  normalize_condition condition = record {
    id = trimmed condition.id 128;
    name = trimmed condition.name 160;
    active = or_else condition.active false;
    goal = clamp_int condition.goal 0 100000;
    duration_minutes = clamp_int condition.duration_minutes 1 240;
    group_size = clamp_int condition.group_size 2 50;
    config = record {
      workspace_mode = or_else raw.workspace_mode WorkspaceMode.ranking;
      intervention_mode =
          normalize_intervention_mode (or_else raw.intervention_mode (text "public"));
      contribution_threshold =
          clamp_fraction (some (or_else raw.contribution_threshold defaults.contribution_threshold))
            defaults.contribution_threshold;
      protected_start_minutes =
          clamp_non_negative
            (some (or_else raw.protected_start_minutes defaults.protected_start_minutes))
            defaults.protected_start_minutes (n.of_ℕ 240);
      protected_end_minutes = or_else raw.protected_end_minutes defaults.protected_end_minutes;
      contribution_window_minutes =
          clamp_minutes
            (some (or_else raw.contribution_window_minutes defaults.contribution_window_minutes))
            defaults.contribution_window_minutes (n.of_ℕ 240);
      score_weights = record {
        messages = or_else raw.score_messages defaults.score_weights.messages;
        words = or_else raw.score_words defaults.score_weights.words;
      };
      dominance_weights = record {
        share = or_else raw.dominance_share defaults.dominance_weights.share;
        meaningfulness =
            or_else raw.dominance_meaningfulness defaults.dominance_weights.meaningfulness;
      };
      llm_mode = first_some raw.llm_mode defaults.llm_mode;
    };
  }
    where
      raw : RawConfig N
      raw = condition.config

  -- One arm of `seedConditions`: id, name, delivery and classifier.
  arm : Text → Text → Text → LlmMode → ConditionInput N
  unfolding default_config
  arm id name mode llm_mode = record {
    id = some id;
    name = some name;
    active = some true;
    goal = some (n.of_ℕ 5);
    duration_minutes = some (n.of_ℕ 10);
    group_size = some (n.of_ℕ 3);
    config = record {
      workspace_mode = some defaults.workspace_mode;
      intervention_mode = some mode;
      contribution_threshold = some defaults.contribution_threshold;
      protected_start_minutes = some defaults.protected_start_minutes;
      protected_end_minutes = some defaults.protected_end_minutes;
      contribution_window_minutes = some defaults.contribution_window_minutes;
      score_messages = some defaults.score_weights.messages;
      score_words = some defaults.score_weights.words;
      dominance_share = some defaults.dominance_weights.share;
      dominance_meaningfulness = some defaults.dominance_weights.meaningfulness;
      llm_mode = some llm_mode;
    };
  }

  unfoldable pub seed_conditions : List (Condition N)
  unfolding normalize_condition arm
  seed_conditions = map normalize_condition (
      arm (text "baseline") (text "Baseline") (text "baseline") LlmMode.off
      ∷ arm (text "public-llm") (text "Public × Rule+LLM") (text "public") LlmMode.active
      ∷ arm (text "private-llm") (text "Private × Rule+LLM") (text "private") LlmMode.active
      ∷ [])
