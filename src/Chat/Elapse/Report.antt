-- ===== src/Chat/Elapse/Report.antt =====
-- The ends of an evaluation: rejected, silent or a nudge.
use Prim.Native.Nat.{ℕ, ◌+◌}
use gdm_platform.Common.{
  Text, Text-eq, List, [], ◌∷◌, ◌++◌, contains, Option, some, Bool, true, false, ltb, length,
  get-put, ◌≡◌, refl, text_eq, JsMap, ◌==◌, keep, none, sym, ap, ◌∙◌, ◌⊎◌, inl, inr, Bool-cases,
  Option-cases,
}
use gdm_platform.Shared.Timestamp.{to_iso}
use gdm_platform.Shared.Number.{Number}
use gdm_platform.Shared.Interventions.{
  InterventionConfig, ContributionShare, InterventionLog, InterventionAudience, WindowEvaluation,
  WindowOutcome, audience_for_mode,
}
use gdm_platform.Shared.Models.{StateValue, Message}
use gdm_platform.Chat.Runtime.{SessionRuntime}
use gdm_platform.Chat.Window.{
  Membership, is_inside_intervention_window, last_intervention, put_rule_state, state_key,
  get_active_participant_user_ids, get_participant_user_ids, get_participant_ids,
}
use gdm_platform.Chat.Evaluate.{Surroundings, Elapsed}
use gdm_platform.Chat.Elapse.{delivery_to}
use gdm_platform.Chat.Elapse.Target.{IsDominant}

pub last_intervention-put :
    (at_ms : Option ℕ) (state : JsMap Text StateValue)
    → last_intervention (put_rule_state at_ms state) ≡ at_ms
unfolding last_intervention put_rule_state text_eq
last_intervention-put at_ms state =
    rw (get-put state_key state_key (StateValue.rule_state at_ms) state) refl

-- The members after the first look at the room in an evaluation: the roster is asked for, then who
-- of it is joined.
abbrev pub looked_once : (ℕ → Option (List Text)) → List Message → Membership → Membership
looked_once joined messages members =
    (get_active_participant_user_ids joined (get_participant_ids joined messages members).0).0

-- The last request for the joined members was answered, and the answer names the user.
abbrev pub IsJoinedLast : (ℕ → Option (List Text)) → Membership → Text → Type 0
IsJoinedLast joined after user_id =
    (k : ℕ) × (ids : List Text) × (after.asked ≡ k + 1)
    × (joined k ≡ some ids)
    × (contains ids user_id ≡ true)

-- The second look, which follows the wording of the message and is the last one of the evaluation,
-- has found the target among at least two active members.
pub record IsConfirmed (joined : ℕ → Option (List Text)) (looked after : Membership)
    (user_id : Text) : Type 0 where
  pub still_active : List Text
  pub second_look : get_active_participant_user_ids joined looked ≡ (after, some still_active)
  pub enough : ltb (length still_active) 2 ≡ false
  pub present : contains still_active user_id ≡ true
  pub last : IsJoinedLast joined after user_id

contains_of_keep :
    (test : Text → Bool) (ids : List Text) (id : Text)
    → contains (keep test ids) id ≡ true
    → contains ids id ≡ true
unfolding contains
contains_of_keep test [] id h = h
contains_of_keep test (x ∷ xs) id h = elim (Bool-cases (test x)) [
  | inl kept ↦
      let h' = rw kept at h in
      elim (Bool-cases (x == id)) [
        | inl hit ↦ rw hit refl
        | inr miss ↦ rw miss (contains_of_keep test xs id (rw miss at h'))
      ]
  | inr left ↦
      let rest = contains_of_keep test xs id (rw left at h) in
      elim (Bool-cases (x == id)) [ inl hit ↦ rw hit refl | inr miss ↦ rw miss rest ]
]

-- Where the homeserver does not answer a request or does not take the message.
abbrev pub IsUnanswered : Surroundings → Type 0
IsUnanswered around = (around.delivers ≡ false) ⊎ ((k : ℕ) × (around.joined k ≡ none))

module _ (joined : ℕ → Option (List Text)) where
  roster_unanswered :
      (members : Membership)
      → (get_participant_user_ids joined members).1 ≡ none
      → (k : ℕ) × (joined k ≡ none)
  unfolding get_participant_user_ids
  roster_unanswered members h = elim (Option-cases members.participant_user_ids) [
    | inr (ids, cached) ↦ cc (rw (cached, get_participant_user_ids) at h)
    | inl missing ↦ elim (Option-cases (joined members.asked)) [
      | inl silent ↦ (members.asked, silent)
      | inr (ids, answer) ↦ cc (rw answer at (rw (missing, get_participant_user_ids) at h))
    ]
  ]

  -- A look that fails is a request without an answer.
  pub look_unanswered :
      (members : Membership)
      → (get_active_participant_user_ids joined members).1 ≡ none
      → (k : ℕ) × (joined k ≡ none)
  unfolding get_active_participant_user_ids
  look_unanswered members h =
      let asked = get_participant_user_ids joined members in
      elim (Option-cases asked.1) [
        | inl unknown ↦ roster_unanswered members unknown
        | inr (roster, known) ↦ elim (Option-cases (joined asked.0.asked)) [
          | inl silent ↦ (asked.0.asked, silent)
          | inr (ids, answer) ↦ cc (rw answer at (rw (known, get_active_participant_user_ids) at h))
        ]
      ]

  -- Who is among the active members was named by the last answer.
  pub look-IsJoinedLast :
      (looked after : Membership) (still_active : List Text) (user_id : Text)
      → get_active_participant_user_ids joined looked ≡ (after, some still_active)
      → contains still_active user_id ≡ true
      → IsJoinedLast joined after user_id
  unfolding get_active_participant_user_ids
  look-IsJoinedLast looked after still_active user_id h present =
      let asked = get_participant_user_ids joined looked in
      elim (Option-cases asked.1) [
        | inl unknown ↦ cc (ap (λ x. x.1) (rw (unknown, get_active_participant_user_ids) at h))
        | inr (roster, known) ↦
            let h1 = rw (known, get_active_participant_user_ids) at h in
            elim (Option-cases (joined asked.0.asked)) [
              | inl silent ↦ cc (rw silent at (ap (λ x. x.1) h1))
              | inr (ids, answer) ↦
                  let found : some (keep (contains roster) ids) ≡ some still_active =
                    rw answer at (ap (λ x. x.1) h1) in
                  let same : keep (contains roster) ids ≡ still_active = cc (found) in
                  (
                    asked.0.asked,
                    ids,
                    sym (ap (λ x. x.0.asked) h1),
                    answer,
                    contains_of_keep (contains roster) ids user_id
                        (ap (λ l. contains l user_id) same ∙ present),
                  )
            ]
      ]

abbrev pub is_nudged : WindowOutcome → Bool
is_nudged WindowOutcome.nudged = true
is_nudged WindowOutcome.no_target = false
is_nudged WindowOutcome.baseline_suppressed = false
is_nudged WindowOutcome.warm_up = false
is_nudged WindowOutcome.wrap_up = false
is_nudged WindowOutcome.too_few_participants = false

-- Nobody is told anything, and the reset point of the contributions stays.
pub record IsQuiet {N : Type 0} (runtime : SessionRuntime N) (e : Elapsed N) : Type 0 where
  pub no_delivery : e.deliveries ≡ []
  pub same_interventions : e.runtime.interventions ≡ runtime.interventions
  pub same_reset : last_intervention e.runtime.state ≡ last_intervention runtime.state

-- The window's one evaluation follows the evaluations so far.
pub record IsRecorded {N : Type 0} (runtime : SessionRuntime N) (window_end_ms : ℕ) (e : Elapsed N)
    (evaluation : WindowEvaluation N) : Type 0 where
  pub returned : e.failed ≡ false
  pub appended : e.runtime.window_evaluations ≡ runtime.window_evaluations ++ evaluation ∷ []
  pub at_end : evaluation.window_end ≡ to_iso window_end_ms

-- What holds of both branches holds of the test between them.
pub either :
    {A : Type 0} (P : A → Type 0) (b : Bool) {x y : A}
    → (b ≡ true → P x)
    → (b ≡ false → P y)
    → P (elim b [ true ↦ x | false ↦ y ])
either P true f g = f refl
either P false f g = g refl

pub addressed :
    {A : Type 0} (P : A → Type 0) (audience : InterventionAudience)
    (send : InterventionAudience → A) {x : A}
    → P x
    → P (send audience)
    → P (elim audience [
      | InterventionAudience.none ↦ x
      | InterventionAudience.public ↦ send InterventionAudience.public
      | InterventionAudience.private ↦ send InterventionAudience.private
    ])
addressed P InterventionAudience.none send p q = p
addressed P InterventionAudience.public send p q = q
addressed P InterventionAudience.private send p q = q

module _ {N : Type 0} ⦃n : Number N⦄ where
  -- One message, to the target or to everyone, is delivered, logged and stamped; the target was
  -- confirmed, and is dominant in the recorded split.
  pub record IsNudge (runtime : SessionRuntime N) (around : Surroundings) (looked : Membership)
      (config : InterventionConfig N) (window_end_ms : ℕ) (e : Elapsed N)
      (evaluation : WindowEvaluation N) (log : InterventionLog N) (target : ContributionShare N)
      : Type 0 where
    pub outcome : evaluation.outcome ≡ WindowOutcome.nudged
    pub one_delivery :
        e.deliveries
        ≡ delivery_to (audience_for_mode config.intervention_mode) target.user_id log.message ∷ []
    pub logged : e.runtime.interventions ≡ runtime.interventions ++ log ∷ []
    pub linked : evaluation.intervention_id ≡ some log.id
    pub reset : last_intervention e.runtime.state ≡ some window_end_ms
    pub unprotected :
        is_inside_intervention_window runtime.started_at_ms runtime.duration_minutes window_end_ms
          config
        ≡ true
    pub confirmed : IsConfirmed around.joined looked e.members target.user_id
    pub dominant : IsDominant config.contribution_threshold evaluation.contribution_split target

  -- The three ends of an evaluation: the homeserver left it without an answer, nobody is told
  -- anything, or one is nudged.
  pub data Report (runtime : SessionRuntime N) (around : Surroundings) (looked : Membership)
      (config : InterventionConfig N) (window_end_ms : ℕ) (e : Elapsed N) : Type 0 where
    rejected :
        e.failed ≡ true
        → IsUnanswered around
        → e.runtime.window_evaluations ≡ runtime.window_evaluations
        → IsQuiet runtime e
        → Report runtime around looked config window_end_ms e
    silent :
        (evaluation : WindowEvaluation N)
        → IsRecorded runtime window_end_ms e evaluation
        → is_nudged evaluation.outcome ≡ false
        → IsQuiet runtime e
        → Report runtime around looked config window_end_ms e
    nudge :
        (evaluation : WindowEvaluation N) (log : InterventionLog N) (target : ContributionShare N)
        → IsRecorded runtime window_end_ms e evaluation
        → IsNudge runtime around looked config window_end_ms e evaluation log target
        → Report runtime around looked config window_end_ms e
