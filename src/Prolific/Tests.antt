-- ===== src/Prolific/Tests.antt =====
-- The payment of a partial compensation, from the timeout of the participant on.
use Prim.Native.Nat.{ℕ, ◌≤◌}
use gdm_platform.Common.{text, text_eq, Text-eq, List, [], ◌∷◌, some, ◌≡◌, refl, get, put}
use gdm_platform.Shared.Models.{ProlificIdentity}
use gdm_platform.Participation.Endings.{TerminationCompensation, EndedOutcome}
use gdm_platform.Participation.Rules.{Termination, arrival_key}
use gdm_platform.Participation.State.{ParticipationState}
use gdm_platform.Participation.Store.{terminate_prolific_participation}
use gdm_platform.Participation.Run.{Call, step, run}
use gdm_platform.Participation.Run.Consistent.{run-Consistent}
use gdm_platform.Prolific.Api.{Reply, Api}
use gdm_platform.Prolific.Service.{Operation, operate_all}
use gdm_platform.Prolific.Service.Marks.{payments}
use gdm_platform.Prolific.Service.Paid.{paid_once}

abbrev identity : ProlificIdentity
identity = record { participant_id = text "p1"; study_id = text "study"; session_id = text "sub1" }

abbrev empty : ParticipationState
empty = record { prolific_arrivals = []; memory_prolific_actions = [] }

abbrev timeout : Termination
timeout = record {
  outcome = EndedOutcome.connection_timeout;
  reason = text "no heartbeat";
  compensation_kind = TerminationCompensation.partial;
  compensation_amount_pence = some 50;
}

abbrev ended : List (ℕ × Call)
ended = (1000, Call.arrives identity) ∷ (90000, Call.terminates identity timeout) ∷ []

-- Prolific accepts everything.
abbrev willing : Api
willing = record {
  token = some (text "token");
  on_return = Reply.ok;
  on_prepare = Reply.ok;
  batch = some (text "batch1");
  on_pay = Reply.ok;
}

-- Prolific does not answer the payment.
abbrev silent : Api
silent = record willing { on_pay = Reply.unreachable (text "timed out") }

-- The payment gets no answer, and the researcher and the automation try again.
abbrev attempts : List (ℕ × Operation)
attempts =
    (100000, Operation.process (text "study:sub1") silent)
    ∷ (200000, Operation.pay_by_id (text "study:sub1") willing)
    ∷ (300000, Operation.process (text "study:sub1") willing)
    ∷ []

paid_once_example :
    payments
      (text "study:sub1")
      (operate_all attempts (record { store = run empty ended; calls = [] })).calls
    ≤ 1
paid_once_example =
    paid_once (run empty ended) attempts (text "study:sub1") (run-Consistent empty ended tt)

paid_test :
    payments
      (text "study:sub1")
      (operate_all attempts (record { store = run empty ended; calls = [] })).calls
    ≡ 1
unfolding operate_all run arrival_key text_eq get put payments step terminate_prolific_participation
paid_test = refl
