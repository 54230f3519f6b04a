-- ===== src/Participation/Compensation.antt =====
-- sessions/compensation.ts: what a participant who leaves early is paid.
-- Pence are whole numbers; fractional environment values are left out.
pub mod Bounds
use Prim.Native.Nat.{ℕ, ◌+◌, ◌-◌, ◌*◌, ◌/◌, ◌≤◌, min, max}
use gdm_platform.Common.{
  Option, none, some, Bool, true, false, ◌≡◌, refl, arith, nat_eq, if◌then◌else◌,
}
use gdm_platform.Shared.Timestamp.{Timestamp}
use gdm_platform.Shared.Models.{ParticipationStage}
use gdm_platform.Participation.Endings.{TerminationCompensation}

-- What `Number(process.env.X ?? fallback)` reads.
pub data EnvNumber : Type 0 where
  unset not_a_number negative : EnvNumber
  natural : ℕ → EnvNumber

abbrev pub partial_payment_min_pence : ℕ
partial_payment_min_pence = 10

abbrev pub default_partial_payment_pence_per_minute : ℕ
default_partial_payment_pence_per_minute = 10

abbrev pub default_partial_payment_max_pence : ℕ
default_partial_payment_max_pence = 508

-- `Math.max(PARTIAL_PAYMENT_MIN_PENCE, Number(env ?? fallback) || fallback)`.
unfoldable pub at_least_minimum : EnvNumber → ℕ → ℕ
at_least_minimum EnvNumber.unset fallback = max partial_payment_min_pence fallback
at_least_minimum EnvNumber.not_a_number fallback = max partial_payment_min_pence fallback
at_least_minimum EnvNumber.negative fallback = partial_payment_min_pence
at_least_minimum (EnvNumber.natural n) fallback =
    max partial_payment_min_pence (if nat_eq n 0 then fallback else n)

-- `Math.ceil(seconds / 60)`.
abbrev pub started_minutes : ℕ → ℕ
started_minutes seconds = (seconds + 59) / 60

-- `started` is the parsed start; both times are milliseconds.
unfoldable pub partial_payment_pence : EnvNumber → EnvNumber → ℕ → ℕ → ℕ
unfolding at_least_minimum
partial_payment_pence per_minute_env maximum_env started now =
    let elapsed_seconds = max 1 ((now - started) / 1000) in
    let pence_per_minute =
      at_least_minimum per_minute_env default_partial_payment_pence_per_minute in
    let maximum_pence = at_least_minimum maximum_env default_partial_payment_max_pence in
    min maximum_pence
      (max partial_payment_min_pence (started_minutes elapsed_seconds * pence_per_minute))

unfoldable pub disconnect_compensation_kind : ParticipationStage → TerminationCompensation
disconnect_compensation_kind ParticipationStage.waiting = TerminationCompensation.partial
disconnect_compensation_kind ParticipationStage.chat = TerminationCompensation.partial
disconnect_compensation_kind ParticipationStage.exit = TerminationCompensation.partial
disconnect_compensation_kind ParticipationStage.entry = TerminationCompensation.manual_review
disconnect_compensation_kind _ = TerminationCompensation.none

-- The endings that a participant may report.
pub data SelfOutcome : Type 0 where
  declined_consent ineligible voluntary_withdrawal : SelfOutcome

abbrev pub began_study : ParticipationStage → Bool
began_study ParticipationStage.entry = true
began_study ParticipationStage.waiting = true
began_study ParticipationStage.chat = true
began_study ParticipationStage.exit = true
began_study _ = false

unfoldable pub self_termination_compensation_kind :
    SelfOutcome → ParticipationStage → TerminationCompensation
self_termination_compensation_kind SelfOutcome.voluntary_withdrawal stage =
    if began_study stage
    then TerminationCompensation.manual_review
    else TerminationCompensation.none
self_termination_compensation_kind _ stage = TerminationCompensation.none
