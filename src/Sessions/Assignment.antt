-- ===== src/Sessions/Assignment.antt =====
-- sessions/sessions.service.ts: which condition a new group gets (`assignCondition`), and what a
-- visitor may know of the study before (`studyInfo`).
pub mod Balanced
use Prim.Native.Nat.{ℕ}
use gdm_platform.Common.{
  Text, Text-eq, text, List, [], ◌∷◌, map, Option, none, some, Bool, true, false, ◌&&◌, not, ◌==◌,
  if◌then◌else◌, ltb, leb, nat_eq, length, keep, sort, is_some, or_else, ◌++◌,
}
use gdm_platform.Shared.Timestamp.{Timestamp}
use gdm_platform.Shared.Interventions.{WorkspaceMode}
use gdm_platform.Shared.Words.{is_test_condition}
use gdm_platform.Shared.Number.{Number}
use gdm_platform.Shared.Models.{
  Session, Participant, ParticipantRecruitmentSource, Condition, ProlificIdentity, ProlificArrival,
}
use gdm_platform.Participation.Endings.{TerminationCompensation, EndedOutcome}
use gdm_platform.Participation.State.{ParticipationState, get_prolific_arrival}
use gdm_platform.Participation.Store.{terminate_prolific_participation}
use gdm_platform.Participation.Actions.{link_prolific_arrival}
use gdm_platform.Store.State.{StoreState, RoundState}
use gdm_platform.Store.Rounds.{is_aborted, current_round, start_new_round, claimed_count}
use gdm_platform.Store.Lookup.{
  TaskMode, first, is_empty_text, find_by_tracking_token, find_by_prolific_session, find_forming,
  get_condition, get_session,
}
use gdm_platform.Store.Seats.{add_participant, set_session}
use gdm_platform.Store.Lifecycle.{
  Aborting, all_waiting, expired, AbortedLobby, LobbyStatus, abort_lobbies, create_forming,
}
use gdm_platform.Store.Settings.{list_conditions}
use gdm_platform.Sessions.State.{
  ServiceState, Environment, ServiceError, unknown_session, Result, ok, failed, Outcome, with_store,
  with_participation,
}
use gdm_platform.Sessions.Sweep.{sweep_expired_waiting_rooms}

-- A condition that recruits, with the sessions that count for its goal.
pub record Recruiting (N : Type 0) : Type 0 where
  pub condition : Condition N
  pub claimed : ℕ

-- The values that every entry shares, or `none` for `null`.
abbrev pub all_equal : ℕ → List ℕ → Bool
all_equal v [] = true
all_equal v (w ∷ ws) = nat_eq w v && all_equal v ws

abbrev pub shared_value : List ℕ → Option ℕ
shared_value [] = none
shared_value (v ∷ vs) = if all_equal v vs then some v else none

module _ {N : Type 0} where
  -- `condition.active && claimed < condition.goal`.
  abbrev pub is_recruiting : StoreState N → ℕ → Condition N → Bool
  is_recruiting st round_id condition =
      condition.active && ltb (claimed_count st condition.id round_id) condition.goal

  unfoldable pub recruiting_conditions : StoreState N → ℕ → List (Condition N) → List (Recruiting N)
  recruiting_conditions st round_id [] = []
  recruiting_conditions st round_id (c ∷ cs) =
      let rest = recruiting_conditions st round_id cs in
      if is_recruiting st round_id c
      then record { condition = c; claimed = claimed_count st c.id round_id } ∷ rest
      else rest

  unfoldable pub choose_condition : StoreState N → ℕ → Option Text → Result (Condition N)
  unfolding recruiting_conditions get_condition
  choose_condition st round_id condition_id = by_id (or_else condition_id [])
    where
      least_claimed : Option (Recruiting N) → Result (Condition N)
      least_claimed none =
          failed
            (ServiceError.conflict (text "Study is full — no active condition needs participants"))
      least_claimed (some candidate) = ok candidate.condition

      asked_for : Text → Option (Condition N) → Result (Condition N)
      asked_for id none = failed (ServiceError.not_found (text "Unknown condition " ++ id))
      asked_for id (some condition) =
          if is_recruiting st round_id condition
          then ok condition
          else failed (ServiceError.conflict (text "Condition " ++ id ++ text " is not available"))

      by_id : Text → Result (Condition N)
      by_id [] = least_claimed (
          first (
            sort (λ a b. leb a.claimed b.claimed)
              (recruiting_conditions st round_id (list_conditions st))))
      by_id (c ∷ id) = asked_for (c ∷ id) (get_condition st (c ∷ id))

module _ {N : Type 0} ⦃n : Number N⦄ where
  unfoldable pub assign_condition :
      StoreState N → Option Text → ℕ → StoreState N × Result (Condition N)
  unfolding choose_condition current_round
  assign_condition st condition_id now =
      let (st', round) = current_round st now in (st', choose_condition st' round.id condition_id)

  -- `null` where the recruiting arms differ, or where none recruits.
  unfoldable pub study_info : StoreState N → Option Text → ℕ → StoreState N × Option ℕ × Option ℕ
  unfolding get_condition current_round recruiting_conditions is_test_condition
  study_info st condition_id now = elim (wanted (or_else condition_id [])) [
    | some condition ↦ (st, some condition.group_size, some condition.duration_minutes)
    | none ↦
        let (st', round) = current_round st now in
        let arms = study_arms st' round.id in
        (
          st',
          shared_value (map (λ (c : Condition N). c.group_size) arms),
          shared_value (map (λ (c : Condition N). c.duration_minutes) arms),
        )
  ]
    where
      wanted : Text → Option (Condition N)
      wanted [] = none
      wanted (c ∷ id) = get_condition st (c ∷ id)

      study_arms : StoreState N → ℕ → List (Condition N)
      study_arms st' round_id =
          keep (λ (c : Condition N). not (is_test_condition c.id))
            (map (λ (r : Recruiting N). r.condition)
              (recruiting_conditions st' round_id (list_conditions st')))
