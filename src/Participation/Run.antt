-- ===== src/Participation/Run.antt =====
-- The life of the participation store: any sequence of its operations, each at its own time.
pub mod Fit
pub mod Consistent
pub mod Growth
pub mod Finality
pub mod Claims
use Prim.Native.Nat.{ℕ}
use gdm_platform.Common.{Text, List, [], ◌∷◌}
use gdm_platform.Shared.Models.{ProlificIdentity}
use gdm_platform.Participation.Rules.{Termination}
use gdm_platform.Participation.State.{
  ParticipationState, Milestone, record_prolific_arrival, record_participation_stage,
}
use gdm_platform.Participation.Store.{
  terminate_prolific_participation, terminate_stale_prolific_participation,
  complete_prolific_participation,
}
use gdm_platform.Participation.Actions.{ActionPatch, mark_prolific_action, link_prolific_arrival}

pub data Call : Type 0 where
  arrives : ProlificIdentity → Call
  reaches : ProlificIdentity → Milestone → Call
  terminates : ProlificIdentity → Termination → Call
  times_out : ProlificIdentity → (cutoff : ℕ) → Termination → Call
  completes : ProlificIdentity → Call
  marks : (arrival_id : Text) → ActionPatch → Call
  links : ProlificIdentity → (participant_record_id : Text) → Call

unfoldable pub step : ParticipationState → ℕ × Call → ParticipationState
step st (now, arrives identity) = (record_prolific_arrival st identity now).0
step st (now, reaches identity milestone) = (record_participation_stage st identity milestone now).0
step st (now, terminates identity t) = (terminate_prolific_participation st identity t now).0
step st (now, times_out identity cutoff t) =
    (terminate_stale_prolific_participation st identity cutoff t now).0
step st (now, completes identity) = (complete_prolific_participation st identity now).0
step st (now, marks arrival_id patch) = mark_prolific_action st arrival_id patch
step st (now, links identity participant) = link_prolific_arrival st identity participant

unfoldable pub run : ParticipationState → List (ℕ × Call) → ParticipationState
run st [] = st
run st (call ∷ calls) = run (step st call) calls
