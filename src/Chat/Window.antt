-- ===== src/Chat/Window.antt =====
-- rules/bot-rules.ts: the grid of windows of a session and the parts of it in which the bot is
-- silent; sessions/session-runtime.ts: the members of the room.
use Prim.Native.Nat.{ℕ, ◌+◌, ◌-◌, ◌*◌}
use gdm_platform.Common.{
  Text, Text-eq, text, List, [], map, keep, contains, distinct, sort, text_le, Option, none, some,
  Bool, false, ◌&&◌, not, ltb, if◌then◌else◌, or_else, ◌==◌, JsMap, get, put,
}
use gdm_platform.Shared.Number.{Number, lt, minutes_ms, zero_number}
use gdm_platform.Shared.Interventions.{InterventionConfig, LlmMode}
use gdm_platform.Shared.Models.{Message, StateValue}
use gdm_platform.Shared.Config.{protected_end_ms}
use gdm_platform.Shared.Identity.{is_service_user}

-- `process.env.LLM_MODE` overrides the condition.
unfoldable pub resolve_llm_mode : {N : Type 0} → Option Text → InterventionConfig N → LlmMode
resolve_llm_mode env_mode config =
    if or_else env_mode [] == text "off"
    then LlmMode.off
    else (if or_else env_mode [] == text "active"
        then LlmMode.active
        else or_else config.llm_mode LlmMode.off)

module _ {N : Type 0} ⦃n : Number N⦄ where
  -- `Math.max(0, Math.round(x) - 1)`.
  unfoldable pub window_index : (started_at_ms : ℕ) → InterventionConfig N → (window_end_ms : ℕ) → ℕ
  window_index started_at_ms config window_end_ms =
      if n.le window_ms zero_number
      then 0
      else n.round (n.div (n.sub (n.of_ℕ window_end_ms) grid_start_ms) window_ms) - 1
    where
      grid_start_ms : N
      grid_start_ms = n.add (n.of_ℕ started_at_ms) (minutes_ms config.protected_start_minutes)

      window_ms : N
      window_ms = minutes_ms config.contribution_window_minutes

  -- `elapsedMs < config.protectedStartMinutes * 60_000`, where `elapsedMs` is at least 0.
  unfoldable pub in_warmup : (started_at_ms : ℕ) → ℕ → InterventionConfig N → Bool
  in_warmup started_at_ms now_ms config =
      lt (n.of_ℕ (now_ms - started_at_ms)) (minutes_ms config.protected_start_minutes)

  unfoldable pub is_inside_intervention_window :
      (started_at_ms duration_minutes : ℕ) → ℕ → InterventionConfig N → Bool
  unfolding in_warmup
  is_inside_intervention_window started_at_ms duration_minutes now_ms config =
      if in_warmup started_at_ms now_ms config
      then false
      else not (
          ltb 0 total_ms
          && n.le (n.sub (n.of_ℕ total_ms) (n.of_ℕ (now_ms - started_at_ms)))
              (protected_end_ms config))
    where
      total_ms : ℕ
      total_ms = duration_minutes * 60000

-- `STATE_KEY`.
abbrev pub state_key : Text
state_key = text "contributionBotRules"

-- `existing?.lastInterventionAtMs`.
unfoldable pub last_intervention : JsMap Text StateValue → Option ℕ
last_intervention state = of_value (get state_key state)
  where
    of_value : Option StateValue → Option ℕ
    of_value none = none
    of_value (some (StateValue.rule_state at_ms)) = at_ms
    of_value (some (StateValue.opaque _)) = none

-- What `getRuleState` writes back, and the later stamp of its object.
unfoldable pub put_rule_state : Option ℕ → JsMap Text StateValue → JsMap Text StateValue
put_rule_state at_ms state = put state_key (StateValue.rule_state at_ms) state

-- The cached roster of a runtime, and how often the homeserver was asked for the joined members.
pub record Membership : Type 0 where
  pub participant_user_ids : Option (List Text)
  pub asked : ℕ

-- The homeserver's answers to `getJoinedMemberIds`, in order; `none` is a request that fails.
module _ (joined : ℕ → Option (List Text)) where
  unfoldable pub get_participant_user_ids : Membership → Membership × Option (List Text)
  get_participant_user_ids members = elim members.participant_user_ids [
    | some ids ↦ (members, some ids)
    | none ↦ ask (joined members.asked)
  ]
    where
      ask : Option (List Text) → Membership × Option (List Text)
      ask none = (record members { asked = members.asked + 1 }, none)
      ask (some ids) = (
        record {
          participant_user_ids = some (sort text_le (keep (λ id. not (is_service_user id)) ids));
          asked = members.asked + 1;
        },
        some (sort text_le (keep (λ id. not (is_service_user id)) ids)),
      )

  unfoldable pub get_active_participant_user_ids : Membership → Membership × Option (List Text)
  unfolding get_participant_user_ids
  get_active_participant_user_ids members = elim asked.1 [
    | none ↦ (asked.0, none)
    | some roster ↦ (
      record asked.0 { asked = asked.0.asked + 1 },
      elim (joined asked.0.asked) [ none ↦ none | some ids ↦ some (keep (contains roster) ids) ],
    )
  ]
    where
      asked : Membership × Option (List Text)
      asked = get_participant_user_ids members

  -- `getParticipantIds` of the rules: the senders where the homeserver does not answer.
  unfoldable pub get_participant_ids : List Message → Membership → Membership × List Text
  unfolding get_participant_user_ids
  get_participant_ids messages members = (
    (get_participant_user_ids members).0,
    or_else (get_participant_user_ids members).1
        (sort text_le (distinct (map (λ message. message.sender_id) messages))),
  )
