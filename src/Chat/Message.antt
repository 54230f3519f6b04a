-- ===== src/Chat/Message.antt =====
-- rules/bot-rules.ts: the text of a nudge, by the generator or from the fallback templates.
use Prim.Native.Nat.{ℕ, ◌%◌}
use gdm_platform.Common.{
  Text, Text-eq, text, List, [], ◌∷◌, ◌++◌, map, keep, not, Option, none, some, or_else, get_or,
  length, ◌==◌,
}
use gdm_platform.Shared.Number.{Number}
use gdm_platform.Shared.Timestamp.{decimal}
use gdm_platform.Shared.Interventions.{ContributionShare, InterventionLog}

pub record NudgeMessageContext : Type 0 where
  pub target_name : Text
  pub contribution_percent : ℕ
  pub other_participant_names : List Text
  pub previous_messages : List Text

-- `NUDGE_TEMPLATES`.
abbrev nudge_templates : List (Text → ℕ → Text)
nudge_templates =
    (λ name pct.
      text "@"
      ++ name
      ++ text ", you've brought a lot of energy to this — "
      ++ decimal pct
      ++ text "% of the airtime so far! Might be a good moment to hear from the others, too.")
    ∷ (λ name pct.
        text "@"
        ++ name
        ++ text ", you're leading the discussion right now at "
        ++ decimal pct
        ++ text
            "% of the messages. Curious what the rest of the group thinks — want to pull them in?")
    ∷ (λ name pct.
        text "Nice momentum, @"
        ++ name
        ++ text " — you're at "
        ++ decimal pct
        ++ text
            "% of the conversation so far. The group might benefit from a few more voices in the mix.")
    ∷ (λ name pct.
        text "@"
        ++ name
        ++ text ", you've been really active — "
        ++ decimal pct
        ++ text "% of the airtime! Worth checking in with the quieter folks before you move on?")
    ∷ (λ name pct.
        text "@"
        ++ name
        ++ text ", you've carried a good chunk of this discussion ("
        ++ decimal pct
        ++ text "%). Maybe toss the next question over to someone else in the group?")
    ∷ []

module _ {N : Type 0} ⦃n : Number N⦄ where
  unfoldable pub build_fallback_message : ContributionShare N → (nudge_index : ℕ) → Text
  unfolding decimal
  build_fallback_message target nudge_index =
      (get_or nudge_templates (nudge_index % 5) (λ name pct. [])) target.identity_name
        (n.round (n.mul target.share (n.of_ℕ 100)))

  unfoldable pub message_context :
      List (InterventionLog N)
      → List (ContributionShare N)
      → ContributionShare N
      → NudgeMessageContext
  message_context interventions split target = record {
    target_name = target.identity_name;
    contribution_percent = n.round (n.mul target.share (n.of_ℕ 100));
    other_participant_names =
        map (λ entry. entry.identity_name)
          (keep (λ entry. not (entry.user_id == target.user_id)) split);
    previous_messages = map (λ item. item.message) interventions;
  }

  -- The generator is a service: `none` where it gives no message or throws.
  unfoldable pub build_message :
      Option (NudgeMessageContext → Option Text)
      → List (InterventionLog N)
      → List (ContributionShare N)
      → ContributionShare N
      → Text
  unfolding build_fallback_message message_context
  build_message generator interventions split target = elim generator [
    | none ↦ build_fallback_message target (length interventions)
    | some generate ↦
        or_else (generate (message_context interventions split target))
          (build_fallback_message target (length interventions))
  ]
