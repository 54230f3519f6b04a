-- ===== src/Store/Tests.antt =====
-- The store of sessions on concrete conditions, rounds, lobbies and choices.
use mathlib.Core.List.{Perm}
use Prim.Native.Nat.{ℕ, ◌≤◌, ◌/◌}
use gdm_platform.Common.{
  Text, text, text_eq, Text-eq, List, [], ◌∷◌, none, some, true, false, ◌≡◌, refl, arith, All,
  Unique, contains, sort, ◌⊎◌, get, put,
}
use gdm_platform.Shared.Timestamp.{to_iso}
use gdm_platform.Shared.Models.{Session, waiting, provisioning, running}
use gdm_platform.Shared.Config.{RawConfig}
use gdm_platform.Shared.FixedPoint.{hundredths}
use gdm_platform.Checkpoint.Samples.{condition, session}
use gdm_platform.Store.State.{StoreState, new_store, seed_memory, open_round, empty_study_settings}
use gdm_platform.Store.Conditions.{ConditionInput, normalize_condition}
use gdm_platform.Store.Conditions.Bounds.{normalize_condition_bounds}
use gdm_platform.Store.Shuffle.{shuffle_ranking_order, shuffle_from, swap}
use gdm_platform.Store.Shuffle.Fair.{shuffle-perm, choices_of_order}
use gdm_platform.Store.Rounds.{current_round, all_memory_sessions}
use gdm_platform.Store.Rounds.Chained.{Chained}
use gdm_platform.Store.Rounds.Calls.{asks, starts, renames, call_rounds, call_rounds-Chained}
use gdm_platform.Store.Lookup.{is_forming, get_condition, find_forming, created_le}
use gdm_platform.Store.Lookup.Oldest.{find_forming-IsOldest}
use gdm_platform.Store.Lifecycle.{claim_session_provisioning, finish_session_provisioning}
use gdm_platform.Store.Life.Writes.{Write, claims, publishes, write, write_all}
use gdm_platform.Store.Life.Writes.Claimed.{WasClaimed, published-WasClaimed}

abbrev raw : RawConfig ℕ
raw = record {
  workspace_mode = none;
  intervention_mode = some (text "private");
  contribution_threshold = some 700;
  protected_start_minutes = none;
  protected_end_minutes = none;
  contribution_window_minutes = some 0;
  score_messages = none;
  score_words = none;
  dominance_share = none;
  dominance_meaningfulness = none;
  llm_mode = none;
}

-- A group of one for ten hours, with a threshold of 7 and a window of 0 minutes.
abbrev extreme : ConditionInput ℕ
extreme = record {
  id = some (text " c7 ");
  name = none;
  active = some true;
  goal = none;
  duration_minutes = some 60000;
  group_size = some 100;
  config = raw;
}

normalize_condition_bounds_example :
    (2 ≤ (normalize_condition extreme).group_size) × ((normalize_condition extreme).group_size ≤ 50)
unfolding hundredths
normalize_condition_bounds_example = (normalize_condition_bounds extreme refl refl refl).2

shuffle-perm_example :
    Perm (shuffle_ranking_order {A = ℕ} (λ m. 0) (1 ∷ 2 ∷ 3 ∷ [])) (some 1 ∷ some 2 ∷ some 3 ∷ [])
shuffle-perm_example = shuffle-perm {A = ℕ} (λ m. 0) (1 ∷ 2 ∷ 3 ∷ []) (λ m. omega arith)

shuffled : shuffle_ranking_order {A = ℕ} (λ m. 0) (1 ∷ 2 ∷ 3 ∷ []) ≡ some 2 ∷ some 3 ∷ some 1 ∷ []
unfolding shuffle_ranking_order shuffle_from swap
shuffled = refl

-- A choice out of range leaves a place undefined.
undefined_place :
    shuffle_ranking_order {A = ℕ} (λ m. 5) (1 ∷ 2 ∷ [])
    ≡ some 1 ∷ none ∷ none ∷ none ∷ none ∷ some 2 ∷ []
unfolding shuffle_ranking_order shuffle_from swap
undefined_place = refl

-- Always the first, and an arithmetic way to say the same for small bounds.
abbrev first_pick : ℕ → ℕ
first_pick m = 0

abbrev last_pick : ℕ → ℕ
last_pick m = m / 7

abbrev items : List Text
items = text "a" ∷ text "b" ∷ text "c" ∷ []

distinct_items : Unique items
unfolding contains text_eq
distinct_items = (refl, (refl, (refl, tt)))

same_order : shuffle_ranking_order first_pick items ≡ shuffle_ranking_order last_pick items
unfolding shuffle_ranking_order shuffle_from swap
same_order = refl

choices_of_order_example : first_pick 3 ≡ last_pick 3
choices_of_order_example =
    choices_of_order first_pick last_pick items 3 (λ m. omega arith) (λ m. omega arith)
      distinct_items same_order (omega arith) (omega arith)

call_rounds-Chained_example :
    Chained 1
      (to_iso 10)
      (call_rounds (new_store {N = ℕ} 10) (
        (20, asks)
        ∷ (30, starts (text "pilot"))
        ∷ (40, renames 2 (text "main"))
        ∷ (50, starts (text "end"))
        ∷ [])).memory_rounds
call_rounds-Chained_example = call_rounds-Chained ℕ 10 (
    (20, asks)
    ∷ (30, starts (text "pilot"))
    ∷ (40, renames 2 (text "main"))
    ∷ (50, starts (text "end"))
    ∷ [])

-- A lobby with an identifier and a time of creation.
abbrev lobby : List ℕ → ℕ → Session ℕ
lobby id created = record session { id = id; status = waiting; created_at = to_iso created }

abbrev two_lobbies : StoreState ℕ
two_lobbies = record {
  conditions = condition ∷ [];
  sessions = (text "a", lobby (text "a") 9) ∷ (text "b", lobby (text "b") 5) ∷ [];
  memory_creds = [];
  memory_settings = empty_study_settings;
  memory_rounds = open_round 1 [] 0 ∷ [];
}

oldest_found : (find_forming two_lobbies (some (text "c1")) none 20).1 ≡ some (lobby (text "b") 5)
unfolding find_forming current_round seed_memory is_forming get_condition text_eq sort
oldest_found = refl

find_forming-IsOldest_example :
    All
      (λ t.
        (is_forming two_lobbies 1 (some (text "c1")) none t ≡ false)
        ⊎ (created_le (lobby (text "b") 5) t ≡ true))
      (all_memory_sessions two_lobbies)
unfolding current_round seed_memory
find_forming-IsOldest_example =
    (find_forming-IsOldest two_lobbies (some (text "c1")) none 20 (lobby (text "b") 5)
      oldest_found).4

-- The lobby `a` is claimed and published.
abbrev claiming : List (Write ℕ)
claiming = claims (text "a") ∷ publishes (text "a") (text "!room") (to_iso 30) ∷ []

abbrev claimed_lobby : Session ℕ
claimed_lobby = record (lobby (text "a") 9) { status = provisioning }

abbrev published_lobby : Session ℕ
published_lobby = record (lobby (text "a") 9) {
  status = running;
  room_id = some (text "!room");
  started_at = some (to_iso 30);
}

lobby_stored : get (text "a") two_lobbies.sessions ≡ some (lobby (text "a") 9)
unfolding get text_eq
lobby_stored = refl

lobby_published : get (text "a") (write_all two_lobbies claiming).sessions ≡ some published_lobby
unfolding write_all write claim_session_provisioning finish_session_provisioning get text_eq put
lobby_published = refl

published-WasClaimed_example : WasClaimed two_lobbies claiming (text "a")
published-WasClaimed_example =
    published-WasClaimed two_lobbies claiming (text "a") (lobby (text "a") 9) published_lobby
      lobby_stored refl lobby_published refl
