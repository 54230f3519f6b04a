-- ===== src/Participation/Outcomes.antt =====
-- sessions/participation-outcomes.ts: the text and the redirect of a terminal outcome.
use Prim.Native.Nat.{ℕ}
use gdm_platform.Common.{Text, text, Option, none, some, [], ◌∷◌}
use gdm_platform.Shared.Models.{
  ParticipationOutcome, CompensationKind, ParticipationOutcomeRecord, StudySettings,
}

-- `a || b` of two texts.
abbrev pub or_text : Text → Text → Text
or_text [] b = b
or_text (c ∷ a) b = c ∷ a

unfoldable pub outcome_url : StudySettings → ParticipationOutcome → Text
outcome_url settings ParticipationOutcome.declined_consent = settings.no_consent_url
outcome_url settings ParticipationOutcome.ineligible = settings.ineligible_url
outcome_url settings ParticipationOutcome.voluntary_withdrawal = settings.withdrawal_url
outcome_url settings ParticipationOutcome.connection_timeout =
    or_text settings.technical_failure_url settings.withdrawal_url
outcome_url settings ParticipationOutcome.unmatched = settings.unmatched_url
outcome_url settings ParticipationOutcome.technical_failure =
    or_text settings.technical_failure_url settings.unmatched_url
outcome_url settings ParticipationOutcome.participant_dropout =
    or_text settings.technical_failure_url settings.unmatched_url
outcome_url settings ParticipationOutcome.group_aborted =
    or_text settings.technical_failure_url settings.unmatched_url
outcome_url settings ParticipationOutcome.completed = settings.compensation_url

unfoldable pub default_outcome_reason : ParticipationOutcome → Text
default_outcome_reason ParticipationOutcome.declined_consent =
    text "The participant did not consent to take part."
default_outcome_reason ParticipationOutcome.ineligible =
    text "The participant did not meet the study eligibility requirements."
default_outcome_reason ParticipationOutcome.voluntary_withdrawal =
    text "The participant chose to withdraw from the study."
default_outcome_reason ParticipationOutcome.connection_timeout =
    text "The participant did not reconnect within the allowed grace period."
default_outcome_reason _ = text "The participation ended before full completion."

withdrawal_message : Option CompensationKind → Text
withdrawal_message (some CompensationKind.manual_review) =
    text "Your withdrawal was recorded. The researcher will review the time you spent."
withdrawal_message _ =
    text "Your withdrawal was recorded. Please return your submission on Prolific."

timeout_message : Option CompensationKind → Text
timeout_message (some CompensationKind.partial) =
    text
      "Your connection was lost and the reconnect window expired. Your partial payment has been queued for review."
timeout_message _ =
    text
      "Your connection was lost and the reconnect window expired. Please follow the Prolific return instructions."

unfoldable pub outcome_message : Option ParticipationOutcome → Option CompensationKind → Text
unfolding withdrawal_message timeout_message
outcome_message (some ParticipationOutcome.declined_consent) kind =
    text "You have not entered the study. Please return your submission on Prolific."
outcome_message (some ParticipationOutcome.ineligible) kind =
    text "You cannot continue with this study. Please follow the return instructions."
outcome_message (some ParticipationOutcome.voluntary_withdrawal) kind = withdrawal_message kind
outcome_message (some ParticipationOutcome.connection_timeout) kind = timeout_message kind
outcome_message (some ParticipationOutcome.unmatched) kind =
    text "A complete group could not be formed. Your partial payment has been queued for review."
outcome_message (some ParticipationOutcome.technical_failure) kind =
    text "The study could not continue. Your partial payment has been queued for review."
outcome_message (some ParticipationOutcome.group_aborted) kind =
    text "The study could not continue. Your partial payment has been queued for review."
outcome_message (some ParticipationOutcome.participant_dropout) kind =
    text
      "Your participation ended before the group task finished. The researcher will review compensation."
outcome_message (some ParticipationOutcome.completed) kind = text "Your participation is complete."
outcome_message none kind = text "Your participation has ended."

pub record ParticipationOutcomeResponse : Type 0 where
  pub outcome : ParticipationOutcome
  pub compensation_kind : Option CompensationKind
  pub compensation_amount_pence : Option ℕ
  pub redirect_url : Text
  pub message : Text

-- The source asserts that the record has an outcome (`record.outcome!`); without one there is no
-- response here.
unfoldable pub to_outcome_response :
    ParticipationOutcomeRecord → StudySettings → Option ParticipationOutcomeResponse
unfolding outcome_url outcome_message
to_outcome_response row settings = elim row.outcome [
  | none ↦ none
  | some outcome ↦ some (record {
    outcome = outcome;
    compensation_kind = row.compensation_kind;
    compensation_amount_pence = row.compensation_amount_pence;
    redirect_url = outcome_url settings outcome;
    message = outcome_message row.outcome row.compensation_kind;
  })
]
