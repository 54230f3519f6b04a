-- ===== src/Prolific/Api.antt =====
-- prolific/prolific-actions.service.ts: the requests to Prolific, its answers, and the failures.
use Prim.Native.Nat.{ℕ}
use gdm_platform.Common.{Text, text, List, Option, some, or_else}
use gdm_platform.Shared.Models.{ParticipationOutcome, ParticipationOutcomeRecord}
use gdm_platform.Checkpoint.Rankings.{truthy}
use gdm_platform.Participation.State.{ParticipationState}

-- `unreachable` is a request that throws: the time limit, or no connection.
pub data Reply : Type 0 where
  ok : Reply
  refused : (status : ℕ) → Reply
  unreachable : (message : Text) → Reply

-- What an operation finds outside: the token, and the answers to its requests.
pub record Api : Type 0 where
  pub token : Option Text
  pub on_return : Reply
  pub on_prepare : Reply
  pub batch : Option Text
  pub on_pay : Reply

-- The requests that were sent, for which outcome.
pub data ApiCall : Type 0 where
  request_return : (id session_id reason : Text) → ApiCall
  bonus_payments : (id study_id csv_bonuses : Text) → ApiCall
  pay : (id batch : Text) → ApiCall

pub record Worker : Type 0 where
  pub store : ParticipationState
  pub calls : List ApiCall

pub data Failure : Type 0 where
  conflict not_found unavailable other : (message : Text) → Failure
  payment_uncertain : Failure

unfoldable pub message_of : Failure → Text
message_of (Failure.conflict message) = message
message_of (Failure.not_found message) = message
message_of (Failure.unavailable message) = message
message_of (Failure.other message) = message
message_of Failure.payment_uncertain = text ""

pub data Attempt : Type 0 where
  succeeded : Attempt
  thrown : Failure → Attempt

pub data Answer : Type 0 where
  returned : Option ParticipationOutcomeRecord → Answer
  threw : Failure → Answer

unfoldable pub return_reason : ParticipationOutcomeRecord → Text
return_reason outcome = of_outcome outcome.outcome
  where
    of_outcome : Option ParticipationOutcome → Text
    of_outcome (some ParticipationOutcome.declined_consent) = text "Withdrew consent."
    of_outcome (some ParticipationOutcome.voluntary_withdrawal) = text "Did not finish study."
    of_outcome (some ParticipationOutcome.connection_timeout) =
        text "Connection was lost for longer than the allowed reconnect window."
    of_outcome (some ParticipationOutcome.unmatched) =
        text "Could not be matched with the required live group."
    of_outcome (some ParticipationOutcome.technical_failure) =
        text "Encountered technical problems."
    of_outcome (some ParticipationOutcome.group_aborted) = text "Encountered technical problems."
    of_outcome _ = or_else (truthy outcome.outcome_reason) (text "Did not finish study.")
