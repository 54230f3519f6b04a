-- ===== src/Sessions/Disconnection.antt =====
-- sessions/sessions.service.ts: the sweep of participants who stopped sending heartbeats.
use Prim.Native.Nat.{ℕ, ◌-◌, ◌*◌, max}
use gdm_platform.Common.{
  Text, text, List, [], ◌∷◌, ◌++◌, Option, none, some, Bool, true, if◌then◌else◌, nat_eq,
}
use gdm_platform.Shared.Timestamp.{decimal}
use gdm_platform.Shared.Models.{Session, Participant, ProlificArrival, ParticipationOutcomeRecord}
use gdm_platform.Participation.Compensation.{
  EnvNumber, disconnect_compensation_kind, partial_payment_pence,
}
use gdm_platform.Participation.Endings.{TerminationCompensation, EndedOutcome}
use gdm_platform.Participation.Rules.{Termination}
use gdm_platform.Participation.State.{list_stale_prolific_arrivals}
use gdm_platform.Participation.Store.{terminate_stale_prolific_participation}
use gdm_platform.Sessions.State.{ServiceState, Environment, Result, ok, failed, with_participation}
use gdm_platform.Sessions.Sweep.{started_ms}
use gdm_platform.Sessions.Matchmaking.{find_own_session}
use gdm_platform.Sessions.Leaving.{Kick, kicks_of, leave_session, leave_if_seated}

-- `Math.max(5, Number(process.env.PARTICIPANT_RECONNECT_GRACE_SECONDS ?? 30) || 30)`.
unfoldable pub reconnect_grace_seconds : EnvNumber → ℕ
reconnect_grace_seconds EnvNumber.unset = 30
reconnect_grace_seconds EnvNumber.not_a_number = 30
reconnect_grace_seconds EnvNumber.negative = 5
reconnect_grace_seconds (EnvNumber.natural n) = if nat_eq n 0 then 30 else max 5 n

abbrev pub disconnected_reason : Text
disconnected_reason = text "The live group could not continue after a participant disconnected."

-- What the sweep of disconnected participants has done so far.
pub record Disconnected (N : Type 0) : Type 0 where
  pub state : ServiceState N
  pub kicks : List Kick
  pub claimed : List ParticipationOutcomeRecord

-- The outcome of an arrival whose browser stopped sending heartbeats.
unfoldable pub disconnection : Environment → ProlificArrival → ℕ → Termination
unfolding disconnect_compensation_kind partial_payment_pence reconnect_grace_seconds
disconnection env arrival now = record {
  outcome = EndedOutcome.connection_timeout;
  reason =
      text "No participant heartbeat was received for "
      ++ decimal (reconnect_grace_seconds env.participant_reconnect_grace_seconds)
      ++ text " seconds.";
  compensation_kind = kind;
  compensation_amount_pence = amount kind;
}
  where
    kind : TerminationCompensation
    kind = disconnect_compensation_kind arrival.stage

    amount : TerminationCompensation → Option ℕ
    amount TerminationCompensation.partial = some (
        partial_payment_pence env.partial_payment_pence_per_minute env.partial_payment_max_pence
          (started_ms arrival.arrived_at) now)
    amount _ = none

abbrev pub unless_failed :
    {N : Type 0}
    → Disconnected N × Result (Unit {0})
    → (Disconnected N → Disconnected N × Result (Unit {0}))
    → Disconnected N × Result (Unit {0})
unless_failed (done, ok _) f = f done
unless_failed (done, failed e) f = (done, failed e)

-- Kicks that follow an abort: every member of the room.
abbrev pub room_kicks : {N : Type 0} → Bool → Option (Session N × Participant N) → List Kick
room_kicks true (some (session, _)) = kicks_of session.room_id session.participants
room_kicks _ _ = []

module _ (env : Environment) {N : Type 0} where
  -- One stale arrival. A heartbeat that came after the cutoff wins, and a lookup that throws ends
  -- the sweep.
  unfoldable pub sweep_arrival :
      ℕ → ℕ → ProlificArrival → Disconnected N → Disconnected N × Result (Unit {0})
  unfolding terminate_stale_prolific_participation disconnection find_own_session leave_session
  sweep_arrival cutoff now arrival done =
      let st = done.state in
      let (participation, row) =
        terminate_stale_prolific_participation st.participation arrival.identity cutoff
          (disconnection env arrival now) now in
      let st' = with_participation st participation in
      elim row [
        | none ↦ (record done { state = st' }, ok tt)
        | some record' ↦ elim (find_own_session st.store arrival.identity) [
          | failed e ↦ (record done { state = st' }, failed e)
          | ok existing ↦
              let left = leave_if_seated env existing disconnected_reason now st' in
              (
                record {
                  state = left.state;
                  kicks = done.kicks ++ (left.kicks ++ room_kicks left.aborted existing);
                  claimed = done.claimed ++ record' ∷ [];
                },
                ok tt,
              )
        ]
      ]

  unfoldable pub sweep_arrivals :
      ℕ → ℕ → List ProlificArrival → Disconnected N → Disconnected N × Result (Unit {0})
  unfolding sweep_arrival
  sweep_arrivals cutoff now [] done = (done, ok tt)
  sweep_arrivals cutoff now (arrival ∷ arrivals) done =
      unless_failed (sweep_arrival cutoff now arrival done) (sweep_arrivals cutoff now arrivals)

  -- The serialized part; the return requests for what it claimed are those of `Prolific.Service`.
  unfoldable pub sweep_disconnected_participants :
      ServiceState N → ℕ → Disconnected N × Result (Unit {0})
  unfolding sweep_arrivals list_stale_prolific_arrivals reconnect_grace_seconds
  sweep_disconnected_participants st now =
      let grace = reconnect_grace_seconds env.participant_reconnect_grace_seconds in
      let cutoff = now - grace * 1000 in
      sweep_arrivals cutoff now (list_stale_prolific_arrivals st.participation cutoff 100)
        (record { state = st; kicks = []; claimed = [] })
