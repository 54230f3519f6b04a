-- ===== src/Shared/Interventions.antt =====
-- packages/shared/src/interventions.ts: the condition's knobs and the records of the bot.
-- `N` is the type of the program's floating-point numbers.
use Prim.Native.Nat.{ℕ}
use gdm_platform.Common.{
  Text, text, text_eq, Option, List, [], ◌∷◌, Bool, false, true, ◌&&◌, if◌then◌else◌, nat_eq,
}
use gdm_platform.Shared.Timestamp.{Timestamp}

pub data InterventionMode : Type 0 where
  baseline public private : InterventionMode

pub data InterventionAudience : Type 0 where
  none public private : InterventionAudience

pub data WorkspaceMode : Type 0 where
  ranking external etherpad : WorkspaceMode

pub data LlmMode : Type 0 where
  off active : LlmMode

-- `s.startsWith(prefix)`.
unfoldable pub starts_with : Text → Text → Bool
starts_with s [] = true
starts_with [] (_ ∷ _) = false
starts_with (a ∷ s) (b ∷ p) = nat_eq a b && starts_with s p

unfoldable pub normalize_intervention_mode : Text → InterventionMode
unfolding starts_with text_eq
normalize_intervention_mode mode =
    if text_eq mode (text "baseline")
    then InterventionMode.baseline
    else (if text_eq mode (text "public")
        then InterventionMode.public
        else (if text_eq mode (text "private")
            then InterventionMode.private
            else (if starts_with mode (text "private")
                then InterventionMode.private
                else (if starts_with mode (text "public")
                    then InterventionMode.public
                    else InterventionMode.baseline))))

pub record ContributionScoreWeights (N : Type 0) : Type 0 where
  pub messages : N
  pub words : N

pub record DominanceWeights (N : Type 0) : Type 0 where
  pub share : N
  pub meaningfulness : N

pub record InterventionConfig (N : Type 0) : Type 0 where
  pub workspace_mode : WorkspaceMode
  pub intervention_mode : InterventionMode
  pub contribution_threshold : N
  pub protected_start_minutes : N
  pub protected_end_minutes : N
  pub contribution_window_minutes : N
  pub score_weights : ContributionScoreWeights N
  pub dominance_weights : DominanceWeights N
  pub llm_mode : Option LlmMode

pub record ContributionShare (N : Type 0) : Type 0 where
  pub user_id : Text
  pub identity_name : Text
  pub message_count : ℕ
  pub word_count : ℕ
  pub invitation_count : Option ℕ
  pub score : N
  pub share : N
  pub meaningfulness_score : N
  pub dominance_score : N

pub record InterventionTarget : Type 0 where
  pub user_id : Text
  pub identity_name : Text

pub record InterventionLog (N : Type 0) : Type 0 where
  pub id : Text
  pub session_id : Text
  pub room_id : Text
  pub condition_id : Text
  pub mode : InterventionMode
  pub audience : InterventionAudience
  pub timestamp : Timestamp
  pub threshold : N
  pub llm_mode : LlmMode
  pub contribution_window_minutes : N
  pub contribution_split : List (ContributionShare N)
  pub targets : List InterventionTarget
  pub quiet_members : List InterventionTarget
  pub message : Text

pub data WindowOutcome : Type 0 where
  nudged no_target baseline_suppressed warm_up wrap_up too_few_participants : WindowOutcome

pub record WindowEvaluation (N : Type 0) : Type 0 where
  pub id : Text
  pub session_id : Text
  pub condition_id : Text
  pub window_index : ℕ
  pub window_start : Timestamp
  pub window_end : Timestamp
  pub contribution_window_minutes : N
  pub llm_mode : LlmMode
  pub threshold : N
  pub outcome : WindowOutcome
  pub contribution_split : List (ContributionShare N)
  pub candidate_targets : List InterventionTarget
  pub max_dominance_score : Option N
  pub intervention_id : Option Text

unfoldable pub audience_for_mode : InterventionMode → InterventionAudience
audience_for_mode InterventionMode.baseline = InterventionAudience.none
audience_for_mode InterventionMode.public = InterventionAudience.public
audience_for_mode InterventionMode.private = InterventionAudience.private
