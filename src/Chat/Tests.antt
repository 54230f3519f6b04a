-- ===== src/Chat/Tests.antt =====
-- The bot's rules on a concrete session.
use Prim.Native.Nat.{ℕ, ◌-◌}
use gdm_platform.Common.{
  Text, text, text_eq, Text-eq, List, [], ◌∷◌, ◌++◌, keep, map, length, Option, none, some, Bool,
  true, false, leb, All, ◌≡◌, refl, arith, inl, sort, get, put, contains,
}
use gdm_platform.Shared.Timestamp.{to_iso}
use gdm_platform.Shared.Number.{minutes_ms}
use gdm_platform.Shared.FixedPoint.{hundredths}
use gdm_platform.Shared.Interventions.{LlmMode, WindowEvaluation}
use gdm_platform.Shared.Models.{Message}
use gdm_platform.Shared.Dto.{RuntimeCheckpoint}
use gdm_platform.Shared.Config.{RawConfig, normalize_config, default_config}
use gdm_platform.Checkpoint.Samples.{evaluation}
use gdm_platform.Chat.Runtime.{SessionRuntime, claim_window_boundary, checkpoint}
use gdm_platform.Chat.Runtime.Restore.{restore, new_runtime}
use gdm_platform.Chat.Runtime.Resume.{
  checkpoint-restore, restored_boundary_refused, Climbs, granted, granted-Climbs,
}
use gdm_platform.Chat.Runtime.Tidy.{Recording, IsTidy, apply_all, apply_all-IsTidy}
use gdm_platform.Chat.Split.{contribution_split}
use gdm_platform.Chat.Split.Tally.{IsTally, contribution_split-IsTally}
use gdm_platform.Chat.Classify.{ClassifierContext, Classified, TimelineEvent, on_event}
use gdm_platform.Chat.Classify.Accounted.{IsAccounted, message-IsAccounted}
use gdm_platform.Chat.Window.{Membership, resolve_llm_mode}
use gdm_platform.Chat.Evaluate.{Surroundings}
use gdm_platform.Chat.Elapse.{on_window_elapsed}
use gdm_platform.Chat.Elapse.Reported.{window_reported}
use gdm_platform.Chat.Elapse.Report.{Report, looked_once}
use gdm_platform.Chat.Elapse.Modes.{IsSame, with_mode, on_window_elapsed-IsSame}

abbrev config : RawConfig ℕ
config = record {
  workspace_mode = none;
  intervention_mode = none;
  contribution_threshold = none;
  protected_start_minutes = none;
  protected_end_minutes = none;
  contribution_window_minutes = none;
  score_messages = none;
  score_words = none;
  dominance_share = none;
  dominance_meaningfulness = none;
  llm_mode = none;
}

abbrev said : Text → Text → ℕ → Message
said id sender ms = record {
  id = id;
  timestamp = to_iso ms;
  sender_id = sender;
  recipient_id = none;
  text = text "water first";
  reactions = [];
}

abbrev messages : List Message
messages =
    said (text "m0") (text "@ben") 100000
    ∷ said (text "m1") (text "@anna") 200000
    ∷ said (text "m2") (text "@anna") 300000
    ∷ said (text "m3") (text "@ben") 400000
    ∷ []

abbrev runtime : SessionRuntime ℕ
runtime = record (new_runtime (text "s1") (text "!room") (text "c1") config 20 0) {
  messages = messages;
}

abbrev around : Surroundings
around = record {
  env_mode = none;
  joined = λ i. some (text "@anna" ∷ text "@ben" ∷ text "@study_bot:x" ∷ []);
  delivers = true;
  generator = none;
  locale_le = λ a b. true;
  evaluation_id = text "w1";
  intervention_id = text "i1";
  now = to_iso 420500;
}

abbrev members : Membership
members = record { participant_user_ids = none; asked = 0 }

window_reported_example :
    Report runtime around
      (looked_once around.joined runtime.messages members)
      (normalize_config runtime.config)
      420000
      (on_window_elapsed around members runtime 420000)
window_reported_example = window_reported around members runtime 420000

on_window_elapsed-IsSame_example :
    IsSame
      (on_window_elapsed around members (with_mode (text "public") runtime) 420000)
      (on_window_elapsed around members (with_mode (text "private") runtime) 420000)
on_window_elapsed-IsSame_example = on_window_elapsed-IsSame around runtime 420000 members

contribution_split-IsTally_example :
    All
      (IsTally {N = ℕ} LlmMode.off
        (42000000 - minutes_ms {N = ℕ} (default_config {N = ℕ}).contribution_window_minutes)
        18000000
        420000
        []
        messages)
      (contribution_split {N = ℕ} messages []
        (text "@anna" ∷ text "@ben" ∷ [])
        default_config
        420000
        LlmMode.off
        18000000
        (text "@anna" ∷ text "@ben" ∷ []))
unfolding hundredths default_config gdm_platform.Common.absorb
contribution_split-IsTally_example =
    contribution_split-IsTally messages [] (text "@anna" ∷ text "@ben" ∷ []) default_config 420000
      LlmMode.off 18000000 (text "@anna" ∷ text "@ben" ∷ [])

-- The snapshot of a session with two messages and one evaluated window, of an older revision of
-- the services.
abbrev snapshot : RuntimeCheckpoint ℕ
snapshot = record {
  revision = some 4;
  messages = messages;
  ranking_history = [];
  interventions = [];
  behavioral_events = [];
  contribution_classifications = [];
  window_evaluations = some (evaluation (text "w0") none ∷ []);
  classification_failures = none;
  processed_event_ids = text "m1" ∷ text "m2" ∷ [];
  redacted_reaction_event_ids = none;
  reaction_events = none;
  rule_state = [];
}

abbrev fresh : SessionRuntime ℕ
fresh = new_runtime (text "s1") (text "!room") (text "c1") config 20 0

checkpoint-restore_example : (checkpoint (restore fresh snapshot)).1 ≡ record snapshot {
  revision = some 5;
  classification_failures = some [];
  redacted_reaction_event_ids = some [];
  reaction_events = some [];
}
unfolding contains text_eq
checkpoint-restore_example =
    checkpoint-restore (text "s1") (text "!room") (text "c1") config 20 0 snapshot
      (refl, (refl, tt)) tt

restored_boundary_refused_example :
    claim_window_boundary (restore fresh snapshot) 240000 ≡ (restore fresh snapshot, false)
restored_boundary_refused_example =
    restored_boundary_refused fresh snapshot (evaluation (text "w0") none) 240000 240000 (inl refl)
      refl refl

granted-Climbs_example :
    Climbs fresh.last_window_boundary_ms (granted fresh (240000 ∷ 480000 ∷ 240000 ∷ []))
granted-Climbs_example = granted-Climbs fresh (240000 ∷ 480000 ∷ 240000 ∷ [])

-- Anna has two of the three messages of the window: she is nudged in front of everyone.
nudge_test : length (on_window_elapsed around members runtime 420000).deliveries ≡ 1
unfolding on_window_elapsed hundredths text_eq
    gdm_platform.Chat.Window.is_inside_intervention_window new_runtime
    gdm_platform.Shared.Config.protected_end_ms contains
    gdm_platform.Shared.Identity.is_service_user gdm_platform.Common.text_le
    gdm_platform.Chat.Window.resolve_llm_mode get put gdm_platform.Common.absorb
    gdm_platform.Shared.Identity.is_bot gdm_platform.Shared.Interventions.starts_with
    gdm_platform.Shared.Interventions.normalize_intervention_mode
    gdm_platform.Shared.Interventions.audience_for_mode sort gdm_platform.Shared.Words.count_words
    gdm_platform.Chat.Window.get_participant_user_ids normalize_config default_config
nudge_test = refl

-- A message that is delivered twice, and an event that is processed twice.
abbrev recordings : List (Recording ℕ)
recordings =
    Recording.message (said (text "m1") (text "@anna") 200000)
    ∷ Recording.processed (text "m1")
    ∷ Recording.message (said (text "m1") (text "@anna") 200000)
    ∷ Recording.processed (text "m1")
    ∷ Recording.boundary 240000
    ∷ []

apply_all-IsTidy_example : IsTidy (apply_all fresh recordings)
unfolding new_runtime
apply_all-IsTidy_example = apply_all-IsTidy fresh recordings (record {
  indexed = refl;
  messages = tt;
  events = tt;
  classifications = tt;
  failures = tt;
  processed = tt;
})

abbrev second_event : TimelineEvent
second_event = record {
  room_id = text "!room";
  type = text "m.room.message";
  sender = text "@anna";
  event_id = text "m2";
  ts = 300000;
  content = text "{}";
}

-- A classifier that never gets an answer.
abbrev unreachable : Message → ClassifierContext → Classified ℕ
unreachable m context = Classified.failure (record {
  message_id = m.id;
  sender_id = m.sender_id;
  failed_at = to_iso 420500;
  model = text "model";
  prompt_version = text "v1";
  error = text "timed out";
})

message-IsAccounted_example :
    IsAccounted
      (text "m2")
      (on_event
        (some (text "active"))
        around.joined
        (some unreachable)
        members
        runtime
        second_event).1
unfolding text_eq resolve_llm_mode contains
message-IsAccounted_example =
    message-IsAccounted (some (text "active")) around.joined unreachable members runtime
      second_event (λ m context. refl) refl refl refl
