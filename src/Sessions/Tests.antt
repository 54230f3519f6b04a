-- ===== src/Sessions/Tests.antt =====
-- The session service on a group of two.
use Prim.Native.Nat.{ℕ, ◌<◌}
use gdm_platform.Common.{
  text, text_eq, Text-eq, false, Among, All, ◌⊎◌, List, [], ◌∷◌, none, some, true, ◌≡◌, refl, get,
  sort, contains, inl,
}
use gdm_platform.Shared.Timestamp.{to_iso}
use gdm_platform.Shared.FixedPoint.{hundredths}
use gdm_platform.Shared.Models.{
  Session, Participant, ParticipantRecruitmentSource, ProlificIdentity, Condition, waiting, running,
}
use gdm_platform.Participation.Compensation.{EnvNumber}
use gdm_platform.Checkpoint.Samples.{condition, session}
use gdm_platform.Store.State.{StoreState, MatrixCreds, open_round, empty_study_settings}
use gdm_platform.Store.Life.{Follows}
use gdm_platform.Store.Life.Growth.{IsFiled}
use gdm_platform.Sessions.State.{ServiceState, Environment, ok, failed, ServiceError}
use gdm_platform.Store.Rounds.{claimed_count}
use gdm_platform.Store.Lifecycle.{LobbyStatus, expired, aborts, abort_session}
use gdm_platform.Store.Settings.{list_conditions}
use gdm_platform.Sessions.Assignment.{is_recruiting, recruiting_conditions, choose_condition}
use gdm_platform.Sessions.Assignment.Balanced.{choose_condition-HasFewest, choose_condition-IsFull}
use gdm_platform.Sessions.Sweep.{sweep_expired_waiting_rooms}
use gdm_platform.Sessions.Sweep.Ended.{HasEnded}
use gdm_platform.Sessions.Sweep.Settled.{swept-HasEnded}
use gdm_platform.Sessions.Provisioning.{Answers, published, ensure_provisioned, all_registered}
use gdm_platform.Sessions.Provisioning.Ready.{Publication, published-IsReady}
use gdm_platform.Sessions.Provisioning.Progress.{IsWilling, full_lobby_published}
use gdm_platform.Participation.Store.{get_participation_outcome}
use gdm_platform.Store.Lookup.{get_session}
use gdm_platform.Store.Settings.{get_study_settings}
use gdm_platform.Sessions.Completion.{
  CompleteParticipantResponse, complete_seat, complete_participant,
}
use gdm_platform.Sessions.Completion.Due.{Due, complete_participant-Due}
use gdm_platform.Sessions.Run.{Event, sweeps_lobbies, provisions, completes, run}
use gdm_platform.Sessions.Run.Life.{run-Follows}

abbrev person : List ℕ → Participant ℕ
person id = record {
  id = id;
  name = id;
  tracking_token = id;
  recruitment_source = ParticipantRecruitmentSource.direct;
  prolific = none;
  completed_at = none;
  matrix_user_id = some id;
  entry_survey = none;
  exit_survey = none;
}

-- A lobby of two that is complete and whose room is still to come.
abbrev group : Session ℕ
group = record session {
  status = waiting;
  participants = person (text "anna") ∷ person (text "ben") ∷ [];
  condition = record condition { group_size = 2 };
  room_id = none;
  started_at = none;
}

abbrev creds : List ℕ → MatrixCreds
creds id = record { user_id = id; access_token = id }

abbrev store : StoreState ℕ
store = record {
  conditions = condition ∷ [];
  sessions = (text "s1", group) ∷ [];
  memory_creds = (text "anna", creds (text "anna")) ∷ (text "ben", creds (text "ben")) ∷ [];
  memory_settings = empty_study_settings;
  memory_rounds = open_round 1 [] 0 ∷ [];
}

abbrev answers : Answers ℕ
answers = record {
  create_room = some (text "!room");
  invite = λ _ _. true;
  join_room = λ _ _. true;
  start = λ _. true;
}

answers-IsWilling : IsWilling answers
answers-IsWilling = record {
  room = text "!room";
  creates = refl;
  joins = λ _ _. refl;
  starts = λ _. refl;
}

stored : get (text "s1") store.sessions ≡ some group
unfolding get text_eq
stored = refl

registered : all_registered store group.participants ≡ true
unfolding all_registered get text_eq
registered = refl

full_lobby_published_example :
    ((ensure_provisioned answers store (text "s1") 7).1 ≡ published)
    × Publication answers (ensure_provisioned answers store (text "s1") 7).0 (text "s1")
full_lobby_published_example =
    full_lobby_published answers store group 7 answers-IsWilling stored refl registered

published-IsReady_example :
    Publication answers (ensure_provisioned answers store (text "s1") 7).0 (text "s1")
published-IsReady_example =
    published-IsReady answers store group 7 stored
      (full_lobby_published answers store group 7 answers-IsWilling stored refl registered).0

abbrev service : ServiceState ℕ
service = record {
  store = store;
  participation = record { prolific_arrivals = []; memory_prolific_actions = [] };
}

abbrev environment : Environment
environment = record {
  waiting_timeout_minutes = EnvNumber.unset;
  partial_payment_pence_per_minute = EnvNumber.unset;
  partial_payment_max_pence = EnvNumber.unset;
  participant_reconnect_grace_seconds = EnvNumber.unset;
}

abbrev events : List (ℕ × Event ℕ)
events = (7, provisions (text "s1") answers) ∷ (8, sweeps_lobbies) ∷ (9, completes (text "s1")) ∷ []

service-IsFiled : IsFiled service.store.sessions
unfolding contains
service-IsFiled = record { keyed = (refl, tt); unique = (refl, tt) }

run-Follows_example :
    (t : Session ℕ) × (get (text "s1") (run environment service events).store.sessions ≡ some t)
    × Follows group t
run-Follows_example =
    run-Follows environment service events (text "s1") group service-IsFiled (tt, (tt, (tt, tt)))
      stored

-- Two conditions, of which the first already has a group.
abbrev other_condition : Condition ℕ
other_condition = record condition { id = text "c2" }

abbrev two_conditions : StoreState ℕ
two_conditions = record store { conditions = condition ∷ other_condition ∷ [] }

chosen : choose_condition two_conditions 1 none ≡ ok other_condition
unfolding choose_condition recruiting_conditions list_conditions claimed_count text_eq sort
chosen = refl

choose_condition-HasFewest_example :
    claimed_count two_conditions (text "c2") 1 < other_condition.goal
choose_condition-HasFewest_example =
    (choose_condition-HasFewest two_conditions 1 none other_condition chosen).2

-- A study whose only condition is switched off.
abbrev closed_study : StoreState ℕ
closed_study = record store { conditions = record condition { active = false } ∷ [] }

choose_condition-IsFull_example :
    ((c : Condition ℕ) × (choose_condition closed_study 1 none ≡ ok c)
      × Among c closed_study.conditions
      × (is_recruiting closed_study 1 c ≡ true))
    ⊎ ((choose_condition closed_study 1 none
          ≡ failed (
              ServiceError.conflict
                (text "Study is full — no active condition needs participants")))
        × All (λ c. is_recruiting closed_study 1 c ≡ false) closed_study.conditions)
choose_condition-IsFull_example = choose_condition-IsFull closed_study 1

abbrev submission : ProlificIdentity
submission = record { participant_id = text "p1"; study_id = text "st1"; session_id = text "su1" }

abbrev recruited : Participant ℕ
recruited = record (person (text "anna")) {
  recruitment_source = ParticipantRecruitmentSource.prolific;
  prolific = some submission;
}

-- A lobby with one participant of Prolific whose deadline is at 60 seconds.
abbrev expiring : Session ℕ
expiring = record group { participants = recruited ∷ []; waiting_deadline_at = some (to_iso 60000) }

abbrev expiring_service : ServiceState ℕ
expiring_service = record service { store = record store { sessions = (text "s1", expiring) ∷ [] } }

expiring_stored : get (text "s1") expiring_service.store.sessions ≡ some expiring
unfolding get text_eq
expiring_stored = refl

expiring_due : aborts (expired 60000) expiring ≡ some LobbyStatus.waiting
unfolding aborts
expiring_due = refl

abbrev swept : ServiceState ℕ
swept = (sweep_expired_waiting_rooms environment expiring_service 60000).0

swept-HasEnded_example :
    (get (text "s1") swept.store.sessions ≡ some (abort_session expiring))
    × HasEnded swept.participation submission
swept-HasEnded_example =
    swept-HasEnded environment expiring_service 60000 expiring LobbyStatus.waiting recruited
      submission expiring_stored expiring_due (inl refl) refl

-- A participant of Prolific who has handed in the exit survey.
abbrev surveyed : Session ℕ
surveyed = record group {
  status = running;
  participants =
      record recruited { exit_survey = some (record { answers = []; submitted_at = to_iso 8 }) }
      ∷ [];
}

abbrev surveyed_service : ServiceState ℕ
surveyed_service = record service { store = record store { sessions = (text "s1", surveyed) ∷ [] } }

abbrev paid : CompleteParticipantResponse
paid = record {
  completed_at = some (to_iso 9);
  compensation_url = [];
  recruitment_source = ParticipantRecruitmentSource.prolific;
}

responds : (complete_participant surveyed_service (text "s1") (text "anna") 9).1 ≡ ok paid
unfolding complete_participant complete_seat get_session get_participation_outcome get text_eq
    get_study_settings
responds = refl

complete_participant-Due_example : Due surveyed_service (text "s1") (text "anna") 9
complete_participant-Due_example =
    complete_participant-Due surveyed_service (text "s1") (text "anna") 9 paid responds
