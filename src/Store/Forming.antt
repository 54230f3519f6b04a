-- ===== src/Store/Forming.antt =====
-- store/forming-session.ts: `newFormingSession`, and store/waiting-timeout.ts.
use Prim.Native.Nat.{ℕ, ◌+◌, ◌*◌, max}
use gdm_platform.Common.{
  Text, text, [], Option, none, some, Bool, true, false, if◌then◌else◌, nat_eq, map,
}
use gdm_platform.Shared.Timestamp.{to_iso}
use gdm_platform.Shared.Interventions.{LlmMode}
use gdm_platform.Shared.Models.{Session, SessionStatus, Condition}
use gdm_platform.Shared.Tasks.{moon_survival_briefing, moon_survival}
use gdm_platform.Participation.Compensation.{EnvNumber}
use gdm_platform.Checkpoint.Merge.{is_etherpad}
use gdm_platform.Store.Shuffle.{shuffle_ranking_order, defined}

-- `Math.max(1, Number(process.env.WAITING_TIMEOUT_MINUTES ?? 5) || 5)`.
unfoldable pub waiting_timeout_minutes : EnvNumber → ℕ
waiting_timeout_minutes EnvNumber.unset = 5
waiting_timeout_minutes EnvNumber.not_a_number = 5
waiting_timeout_minutes EnvNumber.negative = 1
waiting_timeout_minutes (EnvNumber.natural n) = if nat_eq n 0 then 5 else max 1 n

abbrev is_active_mode : Option LlmMode → Bool
is_active_mode (some LlmMode.active) = true
is_active_mode _ = false

-- `id` is the random identifier, `pick_index` the choices of the shuffle. `randomInt` answers in its
-- range, where no entry of the order is undefined.
unfoldable pub new_forming_session :
    {N : Type 0} → EnvNumber → Text → (ℕ → ℕ) → Condition N → ℕ → ℕ → Session N
unfolding waiting_timeout_minutes shuffle_ranking_order moon_survival
new_forming_session waiting_env id pick_index condition round_id now = record {
  id = id;
  status = SessionStatus.waiting;
  round_id = round_id;
  condition = condition;
  bot = record { llm_enabled = is_active_mode condition.config.llm_mode; condition = condition };
  participants = [];
  chat = record { messages = [] };
  briefing = moon_survival_briefing;
  ranking_task = moon_survival;
  ranking = record {
    event_id = none;
    task_id = moon_survival.id;
    order =
        if is_etherpad condition.config.workspace_mode
        then []
        else defined (shuffle_ranking_order pick_index (map (λ i. i.id) moon_survival.items));
    updated_at = to_iso now;
    updated_by = text "system";
    movement = none;
  };
  ranking_history = none;
  interventions = [];
  behavioral_events = [];
  contribution_classifications = [];
  window_evaluations = some [];
  classification_failures = some [];
  processed_event_ids = some [];
  redacted_reaction_event_ids = some [];
  reaction_events = some [];
  runtime_state = some [];
  checkpoint_revision = none;
  polls = [];
  duration_minutes = condition.duration_minutes;
  room_id = none;
  waiting_deadline_at = some (to_iso (now + waiting_timeout_minutes waiting_env * 60000));
  created_at = to_iso now;
  started_at = none;
  completed_at = none;
}
