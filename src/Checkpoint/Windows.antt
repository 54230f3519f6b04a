-- ===== src/Checkpoint/Windows.antt =====
-- window-evaluations.ts: one record for each window boundary.
pub mod Best
use Prim.Native.Nat.{ℕ, ◌+◌}
use gdm_platform.Common.{
  Text, Text-eq, List, [], ◌∷◌, Option, none, some, Bool, is_some, ltb, if◌then◌else◌, absorb,
  values, true, false,
}
use gdm_platform.Shared.Interventions.{WindowEvaluation, ContributionShare}
use gdm_platform.Checkpoint.Rankings.{truthy}

module _ {N : Type 0} where
  unfoldable pub share_total : List (ContributionShare N) → ℕ
  share_total [] = 0
  share_total (share ∷ shares) = share.message_count + share_total shares

  unfoldable pub message_total : WindowEvaluation N → ℕ
  unfolding share_total
  message_total evaluation = share_total evaluation.contribution_split

  -- `Boolean(evaluation.interventionId)`.
  abbrev pub has_intervention : WindowEvaluation N → Bool
  has_intervention evaluation = is_some (truthy evaluation.intervention_id)

  unfoldable pub outranks : WindowEvaluation N → WindowEvaluation N → Bool
  unfolding message_total
  outranks candidate current = elim (has_intervention candidate) [
    | true ↦ if has_intervention current then by_messages else true
    | false ↦ if has_intervention current then false else by_messages
  ]
    where
      by_messages : Bool
      by_messages = ltb (message_total current) (message_total candidate)

  -- The record that the loop leaves under a boundary that has one.
  unfoldable pub better : WindowEvaluation N → WindowEvaluation N → WindowEvaluation N
  unfolding outranks
  better current evaluation = if outranks evaluation current then evaluation else current

  abbrev pub boundary : WindowEvaluation N → Text
  boundary evaluation = evaluation.window_end.text

  unfoldable pub dedupe_window_evaluations : List (WindowEvaluation N) → List (WindowEvaluation N)
  unfolding better
  dedupe_window_evaluations evaluations = values (absorb boundary (λ e. e) better [] evaluations)
