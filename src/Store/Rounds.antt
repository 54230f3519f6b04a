-- ===== src/Store/Rounds.antt =====
-- store/store.service.ts: the study rounds and the sessions that count for them. In memory a round
-- is changed in place; here its entry is replaced.
pub mod Chained
pub mod Calls
use Prim.Native.Nat.{ℕ, ◌+◌, max}
use gdm_platform.Common.{
  Text, Text-eq, List, [], ◌∷◌, ◌++◌, map, Option, none, some, Bool, true, false, not, ◌&&◌, length,
  keep, find, is_some, if◌then◌else◌, nat_eq, ◌==◌, leb, sort, values,
}
use gdm_platform.Shared.Timestamp.{Timestamp, to_iso}
use gdm_platform.Shared.Words.{trim, is_test_condition}
use gdm_platform.Shared.Number.{Number}
use gdm_platform.Shared.Models.{Session, SessionStatus}
use gdm_platform.Store.State.{RoundState, StoreState, open_round, seed_memory}

pub record StudyRound : Type 0 where
  pub number : ℕ
  pub label : Text
  pub started_at : Timestamp
  pub ended_at : Option Timestamp
  pub session_count : ℕ
  pub completed_count : ℕ

-- `!round.endedAt`.
abbrev pub is_open : RoundState → Bool
is_open round = not (is_some round.ended_at)

-- `Math.max(0, ...ids)`.
abbrev pub max_id : List RoundState → ℕ
max_id [] = 0
max_id (r ∷ rs) = max r.id (max_id rs)

-- `current.endedAt = now` of the first round that is open.
abbrev pub close_open : Timestamp → List RoundState → List RoundState
close_open now [] = []
close_open now (r ∷ rs) =
    if is_open r then record r { ended_at = some now } ∷ rs else r ∷ close_open now rs

-- `round.label = label` of the first round with the number.
abbrev pub rename_round : ℕ → Text → List RoundState → List RoundState
rename_round id label [] = []
rename_round id label (r ∷ rs) =
    if nat_eq r.id id then record r { label = label } ∷ rs else r ∷ rename_round id label rs

abbrev pub is_aborted : SessionStatus → Bool
is_aborted SessionStatus.aborted = true
is_aborted _ = false

abbrev pub is_completed : SessionStatus → Bool
is_completed SessionStatus.completed = true
is_completed _ = false

-- One row of `listRounds`.
study_round : {N : Type 0} → List (Session N) → RoundState → StudyRound
study_round sessions round = record {
  number = round.id;
  label = round.label;
  started_at = round.started_at;
  ended_at = round.ended_at;
  session_count =
      length (keep (λ s. nat_eq s.round_id round.id && not (is_aborted s.status)) sessions);
  completed_count =
      length (keep (λ s. nat_eq s.round_id round.id && is_completed s.status) sessions);
}

module _ {N : Type 0} where
  unfoldable pub update_round_label : StoreState N → ℕ → Text → StoreState N × Option RoundState
  unfolding trim
  update_round_label st id label = elim (find (λ r. nat_eq r.id id) st.memory_rounds) [
    | none ↦ (st, none)
    | some round ↦ (
      record st { memory_rounds = rename_round id (trim label) st.memory_rounds },
      some (record round { label = trim label }),
    )
  ]

  abbrev pub all_memory_sessions : StoreState N → List (Session N)
  all_memory_sessions st = values st.sessions

  abbrev pub is_claim : Text → ℕ → Session N → Bool
  is_claim condition_id round_id s =
      (s.condition.id == condition_id) && nat_eq s.round_id round_id && not (is_aborted s.status)

  unfoldable pub claimed_count : StoreState N → Text → ℕ → ℕ
  claimed_count st condition_id round_id =
      length (keep (is_claim condition_id round_id) (all_memory_sessions st))

  unfoldable pub completed_count : StoreState N → Text → ℕ → ℕ
  completed_count st condition_id round_id = length (
      keep
        (λ s.
          (s.condition.id == condition_id) && nat_eq s.round_id round_id && is_completed s.status)
        (all_memory_sessions st))

-- `open ?? next`, where the next round is stored if no round is open.
abbrev pub opened : {N : Type 0} → Option RoundState → StoreState N → ℕ → StoreState N × RoundState
opened (some round) st now = (st, round)
opened none st now =
    let next = open_round (max_id st.memory_rounds + 1) [] now in
    (record st { memory_rounds = st.memory_rounds ++ next ∷ [] }, next)

module _ {N : Type 0} ⦃n : Number N⦄ where
  unfoldable pub current_round : StoreState N → ℕ → StoreState N × RoundState
  unfolding seed_memory
  current_round st now =
      let st' = seed_memory st now in opened (find is_open st'.memory_rounds) st' now

  unfoldable pub start_new_round : StoreState N → Text → ℕ → StoreState N × RoundState
  unfolding current_round trim
  start_new_round st label now =
      (record st' { memory_rounds = close_open (to_iso now) st'.memory_rounds ++ next ∷ [] }, next)
    where
      st' : StoreState N
      st' = (current_round st now).0

      next : RoundState
      next = open_round ((current_round st now).1.id + 1) (trim label) now

  unfoldable pub list_rounds : StoreState N → ℕ → StoreState N × List StudyRound
  unfolding current_round is_test_condition study_round
  list_rounds st now = elim st.memory_rounds [
    | [] ↦ let (st', round) = current_round st now in (st', rows st' (round ∷ []))
    | _ ∷ _ ↦ (st, rows st st.memory_rounds)
  ]
    where
      rows : StoreState N → List RoundState → List StudyRound
      rows after rounds =
          let sessions =
            keep (λ (s : Session N). not (is_test_condition s.condition.id))
              (all_memory_sessions after) in
          map (study_round sessions) (sort (λ a b. leb a.id b.id) rounds)
