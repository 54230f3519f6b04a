-- ===== src/Chat/Elapse.antt =====
-- rules/bot-rules.ts: `onWindowElapsed`, from the protected phases to the nudge. A session records
-- nothing else while the rules await an answer.
pub mod Target
pub mod Report
pub mod Reported
pub mod Modes
use Prim.Native.Nat.{ℕ, ◌+◌, max}
use gdm_platform.Common.{
  Text, Text-eq, List, [], ◌∷◌, map, contains, Option, none, some, Bool, true, false, ◌||◌, ◌&&◌,
  not, ltb, if◌then◌else◌, or_else, length,
}
use gdm_platform.Shared.Number.{Number, larger, minutes_ms, zero_number}
use gdm_platform.Shared.Interventions.{
  InterventionConfig, ContributionShare, InterventionAudience, WindowOutcome, LlmMode,
  audience_for_mode,
}
use gdm_platform.Shared.Config.{normalize_config}
use gdm_platform.Chat.Runtime.{SessionRuntime, record_window_evaluation, record_intervention}
use gdm_platform.Chat.Split.{contribution_split}
use gdm_platform.Chat.Window.{
  Membership, resolve_llm_mode, in_warmup, is_inside_intervention_window, last_intervention,
  put_rule_state, get_participant_ids, get_active_participant_user_ids,
}
use gdm_platform.Chat.Message.{build_message}
use gdm_platform.Chat.Evaluate.{
  Surroundings, Delivery, Elapsed, Extras, no_extras, failure, to_target, over_threshold,
  max_dominance_score, quietest_members, build_log, window_evaluation,
}

-- `post` or `postPrivate`.
abbrev pub delivery_to : InterventionAudience → Text → Text → Delivery
delivery_to InterventionAudience.public user_id body = Delivery.to_everyone body
delivery_to InterventionAudience.private user_id body = Delivery.to_one user_id body
delivery_to InterventionAudience.none user_id body = Delivery.to_one user_id body

module _ {N : Type 0} ⦃n : Number N⦄ where
  -- `record(outcome, extras)`, and the return.
  unfoldable pub finish :
      Surroundings
      → InterventionConfig N
      → (window_end_ms : ℕ) → Membership
      → SessionRuntime N
      → List Delivery
      → WindowOutcome
      → Extras N
      → Elapsed N
  unfolding record_window_evaluation
  finish around config window_end_ms members runtime deliveries outcome extras = record {
    members = members;
    runtime =
        record_window_evaluation runtime
          (window_evaluation around runtime config window_end_ms outcome extras);
    deliveries = deliveries;
    failed = false;
  }

  abbrev pub with_nudge : Text → Extras N → Extras N
  with_nudge id extras = record extras { nudge = some id }

  -- The stamp of the reset point and the log of the nudge.
  unfoldable pub stamp : (window_end_ms : ℕ) → SessionRuntime N → SessionRuntime N
  unfolding put_rule_state
  stamp window_end_ms runtime = record runtime {
    state = put_rule_state (some window_end_ms) runtime.state;
  }

  -- `getRuleState`: the object that is read and stamped.
  unfoldable pub with_rule_state : SessionRuntime N → SessionRuntime N
  unfolding put_rule_state last_intervention
  with_rule_state runtime = record runtime {
    state = put_rule_state (last_intervention runtime.state) runtime.state;
  }

  module _ (around : Surroundings) (config : InterventionConfig N) (window_end_ms : ℕ) where
    -- From the delivery to the end.
    unfoldable pub send_nudge :
        Membership
        → SessionRuntime N
        → InterventionAudience
        → Extras N
        → ContributionShare N
        → Elapsed N
    unfolding finish stamp record_intervention build_message build_log quietest_members
    send_nudge members runtime audience extras target = elim around.delivers [
      | false ↦ failure members runtime
      | true ↦
          let message = build_message around.generator runtime.interventions extras.split target in
          let stamped = stamp window_end_ms runtime in
          let quiet_members =
            quietest_members around.locale_le extras.split target config.contribution_threshold in
          let log =
            build_log around stamped config (resolve_llm_mode around.env_mode config) audience
              extras.split target quiet_members message in
          finish around config window_end_ms members (record_intervention stamped log)
            (delivery_to audience target.user_id message ∷ []) WindowOutcome.nudged
            (with_nudge log.id extras)
    ]

    -- The second look at the active members.
    unfoldable pub confirm_target :
        Membership × Option (List Text)
        → SessionRuntime N
        → InterventionAudience
        → Extras N
        → ContributionShare N
        → Elapsed N
    unfolding send_nudge
    confirm_target (members, none) runtime audience extras target = failure members runtime
    confirm_target (members, some still_active) runtime audience extras target =
        elim (ltb (length still_active) 2) [
          | true ↦
              finish around config window_end_ms members runtime []
                WindowOutcome.too_few_participants extras
          | false ↦ elim (contains still_active target.user_id) [
            | true ↦ send_nudge members runtime audience extras target
            | false ↦
                finish around config window_end_ms members runtime [] WindowOutcome.no_target extras
          ]
        ]

    unfoldable pub select_target :
        Membership → SessionRuntime N → Extras N → List (ContributionShare N) → Elapsed N
    unfolding confirm_target get_active_participant_user_ids
    select_target members runtime extras [] =
        finish around config window_end_ms members runtime [] WindowOutcome.no_target extras
    select_target members runtime extras (target ∷ _) =
        elim (audience_for_mode config.intervention_mode) [
          | InterventionAudience.none ↦
              finish around config window_end_ms members runtime []
                WindowOutcome.baseline_suppressed extras
          | InterventionAudience.public ↦
              confirm_target (get_active_participant_user_ids around.joined members) runtime
                InterventionAudience.public extras target
          | InterventionAudience.private ↦
              confirm_target (get_active_participant_user_ids around.joined members) runtime
                InterventionAudience.private extras target
        ]

    -- The contributions of the members in the window, after the last nudge and the warm-up.
    unfoldable pub window_split :
        SessionRuntime N → (roster participant_ids : List Text) → List (ContributionShare N)
    unfolding contribution_split last_intervention
    window_split runtime roster participant_ids =
        contribution_split runtime.messages runtime.contribution_classifications participant_ids
          config window_end_ms (resolve_llm_mode around.env_mode config)
          (larger (n.of_ℕ (or_else (last_intervention runtime.state) 0))
            (n.add (n.of_ℕ runtime.started_at_ms) (minutes_ms config.protected_start_minutes)))
          roster

    abbrev pub evaluated : List (ContributionShare N) → Extras N
    evaluated split = record {
      split = split;
      candidates = map to_target (over_threshold config split);
      max_dominance = max_dominance_score none split;
      nudge = none;
    }

    -- The first look at the active members.
    unfoldable pub evaluate_members :
        SessionRuntime N → (roster : List Text) → Membership × Option (List Text) → Elapsed N
    unfolding select_target window_split over_threshold max_dominance_score with_rule_state
    evaluate_members runtime roster (members, none) = failure members runtime
    evaluate_members runtime roster (members, some participant_ids) =
        elim (ltb (length participant_ids) 2) [
          | true ↦
              finish around config window_end_ms members runtime []
                WindowOutcome.too_few_participants no_extras
          | false ↦
              let split = window_split runtime roster participant_ids in
              select_target members (with_rule_state runtime) (evaluated split)
                (over_threshold config split)
        ]

    unfoldable pub evaluate_window : Membership → SessionRuntime N → Elapsed N
    unfolding evaluate_members finish get_participant_ids get_active_participant_user_ids
    evaluate_window members runtime =
        elim (is_inside_intervention_window runtime.started_at_ms runtime.duration_minutes
          window_end_ms config) [
            | false ↦
                finish around config window_end_ms members runtime []
                  (if in_warmup runtime.started_at_ms window_end_ms config
                    then WindowOutcome.warm_up
                    else WindowOutcome.wrap_up)
                  no_extras
            | true ↦
                let asked = get_participant_ids around.joined runtime.messages members in
                evaluate_members runtime asked.1
                  (get_active_participant_user_ids around.joined asked.0)
          ]

  unfoldable pub on_window_elapsed :
      Surroundings → Membership → SessionRuntime N → (window_end_ms : ℕ) → Elapsed N
  unfolding evaluate_window normalize_config
  on_window_elapsed around members runtime window_end_ms =
      evaluate_window around (normalize_config runtime.config) window_end_ms members runtime
