-- ===== src/Checkpoint/Samples.antt =====
-- Sessions, snapshots and records on which the checkpoint merge is tried.
use Prim.Native.Nat.{ℕ}
use gdm_platform.Common.{Text, text, List, [], ◌∷◌, Option, none, some, Bool, true, false}
use gdm_platform.Shared.Timestamp.{to_iso}
use gdm_platform.Shared.Interventions.{
  InterventionConfig, InterventionMode, WorkspaceMode, LlmMode, WindowEvaluation, WindowOutcome,
}
use gdm_platform.Shared.Models.{
  Session, SessionStatus, Condition, Ranking, Message, Reaction, RecordedReaction, BehavioralEvent,
  BehavioralEventType,
}
use gdm_platform.Shared.Dto.{CheckpointSessionRequest}

abbrev pub config : InterventionConfig ℕ
config = record {
  workspace_mode = WorkspaceMode.ranking;
  intervention_mode = InterventionMode.public;
  contribution_threshold = 4;
  protected_start_minutes = 3;
  protected_end_minutes = 2;
  contribution_window_minutes = 4;
  score_weights = record { messages = 1; words = 0 };
  dominance_weights = record { share = 9; meaningfulness = 1 };
  llm_mode = some LlmMode.off;
}

abbrev pub condition : Condition ℕ
condition = record {
  id = text "c1";
  name = text "public";
  active = true;
  goal = 10;
  duration_minutes = 20;
  group_size = 3;
  config = config;
}

abbrev pub ranking : Text → Ranking
ranking first = record {
  event_id = some first;
  task_id = text "moon";
  order = first ∷ [];
  updated_at = to_iso 1000;
  updated_by = text "anna";
  movement = none;
}

abbrev pub message : Text → List Reaction → Message
message id reactions = record {
  id = id;
  timestamp = to_iso 1000;
  sender_id = text "anna";
  recipient_id = none;
  text = text "hello there";
  reactions = reactions;
}

abbrev pub reaction : Reaction
reaction = record {
  event_id = some (text "r1");
  key = text "+1";
  sender_id = text "ben";
  timestamp = to_iso 2000;
}

abbrev pub recorded : Bool → RecordedReaction
recorded redacted = record {
  event_id = text "r1";
  key = text "+1";
  sender_id = text "ben";
  timestamp = to_iso 2000;
  message_id = text "m1";
  redacted = redacted;
  redaction_event_id = none;
  redacted_at = none;
}

abbrev pub event : Text → BehavioralEvent ℕ
event id = record {
  id = id;
  type = BehavioralEventType.typing_start;
  participant_id = text "anna";
  timestamp = to_iso 1000;
  duration_ms = none;
  payload = none;
}

abbrev pub evaluation : Text → Option Text → WindowEvaluation ℕ
evaluation id intervention_id = record {
  id = id;
  session_id = text "s1";
  condition_id = text "c1";
  window_index = 0;
  window_start = to_iso 0;
  window_end = to_iso 240000;
  contribution_window_minutes = 4;
  llm_mode = LlmMode.off;
  threshold = 4;
  outcome = WindowOutcome.no_target;
  contribution_split = [];
  candidate_targets = [];
  max_dominance_score = none;
  intervention_id = intervention_id;
}

abbrev pub session : Session ℕ
session = record {
  id = text "s1";
  status = SessionStatus.running;
  round_id = 1;
  condition = condition;
  bot = record { llm_enabled = false; condition = condition };
  participants = [];
  chat = record { messages = message (text "m1") (reaction ∷ []) ∷ [] };
  briefing = record { title = text "Moon"; html = text "" };
  ranking_task = record { id = text "moon"; title = text "Moon"; items = [] };
  ranking = ranking (text "water");
  ranking_history = some (ranking (text "water") ∷ []);
  interventions = [];
  behavioral_events = event (text "e1") ∷ [];
  contribution_classifications = [];
  window_evaluations = none;
  classification_failures = none;
  processed_event_ids = some (text "m1" ∷ []);
  redacted_reaction_event_ids = none;
  reaction_events = none;
  runtime_state = none;
  checkpoint_revision = some 2;
  polls = [];
  duration_minutes = 20;
  room_id = some (text "!room");
  waiting_deadline_at = none;
  created_at = to_iso 0;
  started_at = some (to_iso 0);
  completed_at = none;
}

abbrev pub snapshot : ℕ → Text → CheckpointSessionRequest ℕ
snapshot revision first = record {
  revision = some revision;
  messages = message (text "m1") (reaction ∷ []) ∷ message (text "m2") [] ∷ [];
  ranking_history = ranking (text "water") ∷ ranking first ∷ [];
  interventions = none;
  behavioral_events = some (event (text "e2") ∷ []);
  contribution_classifications = none;
  window_evaluations = none;
  classification_failures = none;
  processed_event_ids = some (text "m2" ∷ []);
  redacted_reaction_event_ids = some (text "r1" ∷ []);
  reaction_events = none;
  rule_state = none;
}
