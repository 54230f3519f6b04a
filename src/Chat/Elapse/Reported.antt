-- ===== src/Chat/Elapse/Reported.antt =====
-- What an evaluated window leaves behind: one evaluation, and a delivery exactly for a sent.
use Prim.Native.Nat.{ℕ}
use gdm_platform.Common.{
  Text, Text-eq, List, [], ◌∷◌, contains, Option, none, some, true, false, ltb, length,
  if◌then◌else◌, ◌≡◌, refl, ap, ◌∙◌, inl, inr, Bool-cases,
}
use gdm_platform.Shared.Number.{Number}
use gdm_platform.Shared.Interventions.{
  InterventionConfig, ContributionShare, WindowOutcome, audience_for_mode,
}
use gdm_platform.Shared.Config.{normalize_config}
use gdm_platform.Chat.Runtime.{SessionRuntime, record_window_evaluation, record_intervention}
use gdm_platform.Chat.Window.{
  Membership, in_warmup, is_inside_intervention_window, last_intervention, get_participant_ids,
  get_active_participant_user_ids,
}
use gdm_platform.Chat.Evaluate.{
  Surroundings, Elapsed, Extras, no_extras, failure, over_threshold, build_log, window_evaluation,
}
use gdm_platform.Chat.Elapse.{
  finish, stamp, send_nudge, confirm_target, select_target, evaluated, with_rule_state,
  window_split, evaluate_members, evaluate_window, on_window_elapsed,
}
use gdm_platform.Chat.Elapse.Target.{IsDominant, first-IsDominant}
use gdm_platform.Chat.Elapse.Report.{
  last_intervention-put, IsConfirmed, IsUnanswered, looked_once, look_unanswered, look-IsJoinedLast,
  is_nudged, either, addressed, Report,
}

module _ {N : Type 0} ⦃n : Number N⦄ where
  module _ (around : Surroundings) (config : InterventionConfig N) (window_end_ms : ℕ)
      (looked : Membership) where
    quiet :
        (members : Membership) (runtime : SessionRuntime N) (outcome : WindowOutcome)
        (extras : Extras N)
        → is_nudged outcome ≡ false
        → Report runtime around looked config window_end_ms
            (finish around config window_end_ms members runtime [] outcome extras)
    unfolding finish window_evaluation record_window_evaluation
    quiet members runtime outcome extras p =
        Report.silent (window_evaluation around runtime config window_end_ms outcome extras)
          (record { returned = refl; appended = refl; at_end = refl }) p
          (record { no_delivery = refl; same_interventions = refl; same_reset = refl })

    unanswered :
        (members : Membership) (runtime : SessionRuntime N)
        → IsUnanswered around
        → Report runtime around looked config window_end_ms (failure members runtime)
    unanswered members runtime silence =
        Report.rejected refl silence refl
          (record { no_delivery = refl; same_interventions = refl; same_reset = refl })

    module _ (runtime : SessionRuntime N)
        (inside : is_inside_intervention_window runtime.started_at_ms runtime.duration_minutes
            window_end_ms config
          ≡ true) where
      send-Report :
          (members : Membership) (extras : Extras N) (target : ContributionShare N)
          → IsConfirmed around.joined looked members target.user_id
          → IsDominant config.contribution_threshold extras.split target
          → Report runtime around looked config window_end_ms (
              send_nudge around config window_end_ms members runtime
                (audience_for_mode config.intervention_mode)
                extras
                target)
      unfolding send_nudge finish stamp record_intervention record_window_evaluation build_log
          window_evaluation
      send-Report members extras target confirmed dominant =
          either (Report runtime around looked config window_end_ms) around.delivers
            (λ delivered.
              Report.nudge _ _ target (record { returned = refl; appended = refl; at_end = refl })
                (record {
                  outcome = refl;
                  one_delivery = refl;
                  logged = refl;
                  linked = refl;
                  reset = last_intervention-put (some window_end_ms) runtime.state;
                  unprotected = inside;
                  confirmed = confirmed;
                  dominant = dominant;
                }))
            (λ lost. unanswered members runtime (inl lost))

      confirm-Report :
          (extras : Extras N) (target : ContributionShare N)
          → IsDominant config.contribution_threshold extras.split target
          → Report runtime around looked config window_end_ms (
              confirm_target around config window_end_ms
                (get_active_participant_user_ids around.joined looked)
                runtime
                (audience_for_mode config.intervention_mode)
                extras
                target)
      unfolding confirm_target
      confirm-Report extras target dominant =
          cases (get_active_participant_user_ids around.joined looked) refl
        where
          cases :
              (asked : Membership × Option (List Text))
              → get_active_participant_user_ids around.joined looked ≡ asked
              → Report runtime around looked config window_end_ms (
                  confirm_target around config window_end_ms asked runtime
                    (audience_for_mode config.intervention_mode)
                    extras
                    target)
          cases (after, none) p =
              unanswered after runtime
                (inr (look_unanswered around.joined looked (ap (λ a. a.1) p)))
          cases (after, some still_active) p =
              either (Report runtime around looked config window_end_ms)
                (ltb (length still_active) 2)
                (λ few. quiet after runtime WindowOutcome.too_few_participants extras refl)
                (λ enough.
                  either (Report runtime around looked config window_end_ms)
                    (contains still_active target.user_id)
                    (λ present.
                      send-Report after extras target
                        (record {
                          still_active = still_active;
                          second_look = p;
                          enough = enough;
                          present = present;
                          last =
                              look-IsJoinedLast around.joined looked after still_active
                                target.user_id p present;
                        })
                        dominant)
                    (λ gone. quiet after runtime WindowOutcome.no_target extras refl))

      select-Report :
          (split : List (ContributionShare N))
          → Report runtime around looked config window_end_ms (
              select_target around config window_end_ms looked runtime
                (evaluated around config window_end_ms split)
                (over_threshold config split))
      unfolding select_target
      select-Report split = first (over_threshold config split) refl
        where
          extras : Extras N
          extras = evaluated around config window_end_ms split

          first :
              (targets : List (ContributionShare N))
              → over_threshold config split ≡ targets
              → Report runtime around looked config window_end_ms
                  (select_target around config window_end_ms looked runtime extras targets)
          first [] p = quiet looked runtime WindowOutcome.no_target extras refl
          first (target ∷ rest) p =
              addressed (Report runtime around looked config window_end_ms)
                (audience_for_mode config.intervention_mode)
                (λ audience.
                  confirm_target around config window_end_ms
                    (get_active_participant_user_ids around.joined looked) runtime audience extras
                    target)
                (quiet looked runtime WindowOutcome.baseline_suppressed extras refl)
                (confirm-Report extras target (first-IsDominant config split p))

    -- The rules read and rewrite their state first, which changes nothing that a report is about.
    rule_state-Report :
        (runtime : SessionRuntime N) (e : Elapsed N)
        → Report (with_rule_state runtime) around looked config window_end_ms e
        → Report runtime around looked config window_end_ms e
    unfolding with_rule_state
    rule_state-Report runtime e (Report.rejected failed silence same still) =
        Report.rejected failed silence same (record {
          no_delivery = still.no_delivery;
          same_interventions = still.same_interventions;
          same_reset =
              still.same_reset
              ∙ last_intervention-put (last_intervention runtime.state) runtime.state;
        })
    rule_state-Report runtime e (Report.silent evaluation recorded outcome still) =
        Report.silent evaluation
          (record {
            returned = recorded.returned;
            appended = recorded.appended;
            at_end = recorded.at_end;
          })
          outcome
          (record {
            no_delivery = still.no_delivery;
            same_interventions = still.same_interventions;
            same_reset =
                still.same_reset
                ∙ last_intervention-put (last_intervention runtime.state) runtime.state;
          })
    rule_state-Report runtime e (Report.nudge evaluation log target recorded sent) =
        Report.nudge evaluation log target
          (record {
            returned = recorded.returned;
            appended = recorded.appended;
            at_end = recorded.at_end;
          })
          (record {
            outcome = sent.outcome;
            one_delivery = sent.one_delivery;
            logged = sent.logged;
            linked = sent.linked;
            reset = sent.reset;
            unprotected = sent.unprotected;
            confirmed = sent.confirmed;
            dominant = sent.dominant;
          })

    members-Report :
        (runtime : SessionRuntime N) (roster : List Text) (answer : Option (List Text))
        → is_inside_intervention_window runtime.started_at_ms runtime.duration_minutes window_end_ms
            config
          ≡ true
        → (answer ≡ none → IsUnanswered around)
        → Report runtime around looked config window_end_ms
            (evaluate_members around config window_end_ms runtime roster (looked, answer))
    unfolding evaluate_members with_rule_state
    members-Report runtime roster none inside silent = unanswered looked runtime (silent refl)
    members-Report runtime roster (some ids) inside silent =
        either (Report runtime around looked config window_end_ms) (ltb (length ids) 2)
          (λ few. quiet looked runtime WindowOutcome.too_few_participants no_extras refl)
          (λ enough. rule_state-Report runtime _ (
            select-Report (with_rule_state runtime) inside
              (window_split around config window_end_ms runtime roster ids)))

    protected :
        (runtime : SessionRuntime N) (members : Membership)
        → Report runtime around looked config window_end_ms (
            finish around config window_end_ms members runtime []
              (if in_warmup runtime.started_at_ms window_end_ms config
                then WindowOutcome.warm_up
                else WindowOutcome.wrap_up)
              no_extras)
    protected runtime members =
        elim (Bool-cases (in_warmup runtime.started_at_ms window_end_ms config)) [
          | inl warm ↦ rw warm (quiet members runtime WindowOutcome.warm_up no_extras refl)
          | inr late ↦ rw late (quiet members runtime WindowOutcome.wrap_up no_extras refl)
        ]

  module _ (around : Surroundings) (config : InterventionConfig N) (window_end_ms : ℕ) where
    window-Report :
        (members : Membership) (runtime : SessionRuntime N)
        → Report runtime around
            (looked_once around.joined runtime.messages members)
            config
            window_end_ms
            (evaluate_window around config window_end_ms members runtime)
    unfolding evaluate_window
    window-Report members runtime =
        let looked = looked_once around.joined runtime.messages members in
        let asked = get_participant_ids around.joined runtime.messages members in
        either (Report runtime around looked config window_end_ms)
          (is_inside_intervention_window runtime.started_at_ms runtime.duration_minutes
            window_end_ms config)
          (λ inside.
            members-Report around config window_end_ms looked runtime asked.1
              (get_active_participant_user_ids around.joined asked.0).1 inside
              (λ silent. inr (look_unanswered around.joined asked.0 silent)))
          (λ outside. protected around config window_end_ms looked runtime members)

  -- Where a window closes, one of three things happens. The evaluation is rejected, and leaves
  -- neither an evaluation nor a delivery: then the homeserver left a request for the joined members
  -- without an answer, or it does not take messages. Or the one evaluation of the window is recorded
  -- with an outcome other than a nudge, nobody is told anything and the reset point stays. Or it is
  -- recorded as a nudge: outside the protected phases exactly one message goes, by the condition's
  -- audience, to a member whose dominance is at the threshold and the highest of the split, whom the
  -- look at the room after the wording found among at least two active members, and whom the
  -- homeserver named in its last answer; the message is logged, the evaluation carries the log's id,
  -- and the window's end becomes the reset point.
  pub window_reported :
      (around : Surroundings) (members : Membership) (runtime : SessionRuntime N)
      (window_end_ms : ℕ)
      → Report runtime around
          (looked_once around.joined runtime.messages members)
          (normalize_config runtime.config)
          window_end_ms
          (on_window_elapsed around members runtime window_end_ms)
  unfolding on_window_elapsed
  window_reported around members runtime window_end_ms =
      window-Report around (normalize_config runtime.config) window_end_ms members runtime
