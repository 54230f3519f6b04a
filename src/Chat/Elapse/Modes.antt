-- ===== src/Chat/Elapse/Modes.antt =====
-- The two delivery conditions: public and private nudges rest on the same detection.
use Prim.Native.Nat.{ℕ}
use gdm_platform.Common.{
  Text, text, Text-eq, text_eq, List, [], ◌∷◌, contains, Option, none, some, Bool, true, false, ltb,
  length, ◌≡◌, refl,
}
use gdm_platform.Shared.Number.{Number}
use gdm_platform.Shared.Interventions.{
  InterventionConfig, ContributionShare, InterventionAudience, normalize_intervention_mode,
  audience_for_mode,
}
use gdm_platform.Shared.Config.{normalize_config, protected_end_ms}
use gdm_platform.Chat.Runtime.{SessionRuntime, record_window_evaluation, record_intervention}
use gdm_platform.Chat.Split.{contribution_split, score_entry, with_share}
use gdm_platform.Chat.Window.{
  Membership, resolve_llm_mode, window_index, in_warmup, is_inside_intervention_window,
  get_participant_ids, get_active_participant_user_ids,
}
use gdm_platform.Chat.Evaluate.{Surroundings, Elapsed, Extras, over_threshold, window_evaluation}
use gdm_platform.Chat.Elapse.{
  finish, stamp, send_nudge, confirm_target, select_target, window_split, evaluated,
  with_rule_state, evaluate_members, evaluate_window, on_window_elapsed,
}

both :
    {A B : Type 0} (R : A → B → Type 0) (b : Bool) {x y : A} {v w : B}
    → R x v
    → R y w
    → R (elim b [ true ↦ x | false ↦ y ]) (elim b [ true ↦ v | false ↦ w ])
both R true p q = p
both R false p q = q

-- The same evaluations, the same state of the rules and the same end.
pub record IsSame {N : Type 0} (e f : Elapsed N) : Type 0 where
  pub evaluations : e.runtime.window_evaluations ≡ f.runtime.window_evaluations
  pub state : e.runtime.state ≡ f.runtime.state
  pub end : e.failed ≡ f.failed
  pub deliveries : length e.deliveries ≡ length f.deliveries

-- The session under a condition of the given mode.
abbrev pub with_mode : {N : Type 0} → Text → SessionRuntime N → SessionRuntime N
with_mode mode runtime = record runtime {
  config = record runtime.config { intervention_mode = some mode };
}

module _ {N : Type 0} ⦃n : Number N⦄ (around : Surroundings) (runtime : SessionRuntime N)
    (window_end_ms : ℕ) where
  abbrev open_run : SessionRuntime N
  open_run = with_mode (text "public") runtime

  abbrev closed_run : SessionRuntime N
  closed_run = with_mode (text "private") runtime

  abbrev open_config : InterventionConfig N
  open_config = normalize_config open_run.config

  abbrev closed_config : InterventionConfig N
  closed_config = normalize_config closed_run.config

  send-IsSame :
      (members : Membership) (extras : Extras N) (target : ContributionShare N)
      → IsSame
          (send_nudge around open_config window_end_ms members
            (with_rule_state open_run)
            InterventionAudience.public
            extras
            target)
          (send_nudge around closed_config window_end_ms members
            (with_rule_state closed_run)
            InterventionAudience.private
            extras
            target)
  unfolding send_nudge finish stamp record_intervention record_window_evaluation window_evaluation
      window_index resolve_llm_mode normalize_config with_rule_state
  send-IsSame members extras target =
      both IsSame around.delivers
        (record { evaluations = refl; state = refl; end = refl; deliveries = refl })
        (record { evaluations = refl; state = refl; end = refl; deliveries = refl })

  confirm-IsSame :
      (asked : Membership × Option (List Text)) (extras : Extras N) (target : ContributionShare N)
      → IsSame
          (confirm_target around open_config window_end_ms asked
            (with_rule_state open_run)
            InterventionAudience.public
            extras
            target)
          (confirm_target around closed_config window_end_ms asked
            (with_rule_state closed_run)
            InterventionAudience.private
            extras
            target)
  unfolding confirm_target finish record_window_evaluation window_evaluation window_index
      resolve_llm_mode normalize_config with_rule_state
  confirm-IsSame (members, none) extras target = record {
    evaluations = refl;
    state = refl;
    end = refl;
    deliveries = refl;
  }
  confirm-IsSame (members, some still_active) extras target =
      both IsSame (ltb (length still_active) 2)
        (record { evaluations = refl; state = refl; end = refl; deliveries = refl })
        (both IsSame (contains still_active target.user_id) (send-IsSame members extras target)
          (record { evaluations = refl; state = refl; end = refl; deliveries = refl }))

  select-IsSame :
      (members : Membership) (extras : Extras N) (targets : List (ContributionShare N))
      → IsSame
          (select_target around open_config window_end_ms members
            (with_rule_state open_run)
            extras
            targets)
          (select_target around closed_config window_end_ms members
            (with_rule_state closed_run)
            extras
            targets)
  unfolding select_target finish record_window_evaluation window_evaluation window_index
      resolve_llm_mode normalize_config normalize_intervention_mode audience_for_mode text_eq
      with_rule_state
  select-IsSame members extras [] = record {
    evaluations = refl;
    state = refl;
    end = refl;
    deliveries = refl;
  }
  select-IsSame members extras (target ∷ rest) =
      confirm-IsSame (get_active_participant_user_ids around.joined members) extras target

  same_split :
      (roster ids : List Text)
      → window_split around closed_config window_end_ms closed_run roster ids
        ≡ window_split around open_config window_end_ms open_run roster ids
  unfolding window_split contribution_split score_entry with_share resolve_llm_mode normalize_config
  same_split roster ids = refl

  same_over :
      (split : List (ContributionShare N))
      → over_threshold closed_config split ≡ over_threshold open_config split
  unfolding over_threshold normalize_config
  same_over split = refl

  members-IsSame :
      (roster : List Text) (asked : Membership × Option (List Text))
      → IsSame
          (evaluate_members around open_config window_end_ms open_run roster asked)
          (evaluate_members around closed_config window_end_ms closed_run roster asked)
  unfolding evaluate_members finish record_window_evaluation window_evaluation window_index
      resolve_llm_mode normalize_config
  members-IsSame roster (members, none) = record {
    evaluations = refl;
    state = refl;
    end = refl;
    deliveries = refl;
  }
  members-IsSame roster (members, some ids) =
      both IsSame (ltb (length ids) 2)
        (record { evaluations = refl; state = refl; end = refl; deliveries = refl })
        (rw
          (
            same_split roster ids,
            same_over (window_split around open_config window_end_ms open_run roster ids),
          )
          (select-IsSame members
            (evaluated around open_config window_end_ms
              (window_split around open_config window_end_ms open_run roster ids))
            (over_threshold open_config
              (window_split around open_config window_end_ms open_run roster ids))))

  -- The session under the public and under the private condition records the same evaluations of
  -- a window, whatever its messages and members are: the same split, candidates and outcome. The
  -- rules are left in the same state, as many messages are delivered, and either both evaluations
  -- are rejected or neither is.
  pub on_window_elapsed-IsSame :
      (members : Membership)
      → IsSame
          (on_window_elapsed around members (with_mode (text "public") runtime) window_end_ms)
          (on_window_elapsed around members (with_mode (text "private") runtime) window_end_ms)
  unfolding on_window_elapsed evaluate_window finish record_window_evaluation window_evaluation
      window_index resolve_llm_mode normalize_config is_inside_intervention_window in_warmup
      protected_end_ms
  on_window_elapsed-IsSame members =
      let asked = get_participant_ids around.joined runtime.messages members in
      both IsSame
        (is_inside_intervention_window runtime.started_at_ms runtime.duration_minutes window_end_ms
          open_config)
        (members-IsSame asked.1 (get_active_participant_user_ids around.joined asked.0))
        (record { evaluations = refl; state = refl; end = refl; deliveries = refl })
