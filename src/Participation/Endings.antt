-- ===== src/Participation/Endings.antt =====
-- store/participation.ts: how a participation may end short of completion.
use gdm_platform.Shared.Models.{ParticipationOutcome, CompensationKind}

pub data TerminationCompensation : Type 0 where
  none partial manual_review : TerminationCompensation

abbrev pub kind_of : TerminationCompensation → CompensationKind
kind_of TerminationCompensation.none = CompensationKind.none
kind_of TerminationCompensation.partial = CompensationKind.partial
kind_of TerminationCompensation.manual_review = CompensationKind.manual_review

-- `Exclude<ParticipationOutcome, "completed">`.
pub data EndedOutcome : Type 0 where
  declined_consent ineligible voluntary_withdrawal connection_timeout : EndedOutcome
  unmatched technical_failure participant_dropout group_aborted : EndedOutcome

abbrev pub outcome_of : EndedOutcome → ParticipationOutcome
outcome_of EndedOutcome.declined_consent = ParticipationOutcome.declined_consent
outcome_of EndedOutcome.ineligible = ParticipationOutcome.ineligible
outcome_of EndedOutcome.voluntary_withdrawal = ParticipationOutcome.voluntary_withdrawal
outcome_of EndedOutcome.connection_timeout = ParticipationOutcome.connection_timeout
outcome_of EndedOutcome.unmatched = ParticipationOutcome.unmatched
outcome_of EndedOutcome.technical_failure = ParticipationOutcome.technical_failure
outcome_of EndedOutcome.participant_dropout = ParticipationOutcome.participant_dropout
outcome_of EndedOutcome.group_aborted = ParticipationOutcome.group_aborted
