-- ===== src/Store/Lookup/Oldest.antt =====
-- The lobby that a joining participant is sent to.
use Prim.Native.Nat.{ℕ}
use gdm_platform.Common.{
  Text, Option, some, true, false, keep, sort, All, Among, length, ◌<◌, ◌≡◌, arith, ◌⊎◌,
}
use gdm_platform.Shared.Number.{Number}
use gdm_platform.Shared.Models.{Session}
use gdm_platform.Store.State.{StoreState}
use gdm_platform.Store.Rounds.{all_memory_sessions, current_round}
use gdm_platform.Store.Lookup.{TaskMode, created_le, is_waiting, is_forming, find_forming}
use gdm_platform.Store.Lookup.Least.{first-All, keep-All, All_of_keep, first-least, All-sort}

module _ {N : Type 0} where
  forming_parts :
      (st : StoreState N) (round_id : ℕ) (condition_id : Option Text) (task_mode : Option TaskMode)
      (s : Session N)
      → is_forming st round_id condition_id task_mode s ≡ true
      → (is_waiting s.status ≡ true)
        × (s.round_id ≡ round_id)
        × (length s.participants < s.condition.group_size)
  unfolding is_forming
  forming_parts st round_id condition_id task_mode s h = (ground arith, ground arith, ground arith)

  pub created_le_total : (a b : Session N) → created_le a b ≡ false → created_le b a ≡ true
  created_le_total a b h = ground arith

  pub created_le_trans :
      (a b c : Session N) → created_le a b ≡ true → created_le b c ≡ true → created_le a c ≡ true
  created_le_trans a b c p q = ground arith

module _ {N : Type 0} ⦃n : Number N⦄ (st : StoreState N) (condition_id : Option Text)
    (task_mode : Option TaskMode) (now : ℕ) {s : Session N}
    (found : (find_forming st condition_id task_mode now).1 ≡ some s) where
  -- The lobby that is found stands in the store and passes the test of the query.
  pub find_forming_stored :
      Among s (all_memory_sessions (current_round st now).0)
      × (is_forming (current_round st now).0 (current_round st now).1.id condition_id task_mode s
          ≡ true)
  unfolding find_forming
  find_forming_stored =
      let (st', round) = current_round st now in
      let p = is_forming st' round.id condition_id task_mode in
      let sessions = all_memory_sessions st' in
      first-All (λ a. Among a sessions × (p a ≡ true)) (sort created_le (keep p sessions))
        (All-sort created_le (λ a. Among a sessions × (p a ≡ true)) (keep p sessions)
          (keep-All p sessions))
        found

  -- No lobby that qualifies was created earlier.
  pub find_forming-least :
      All
        (λ t.
          (is_forming (current_round st now).0 (current_round st now).1.id condition_id task_mode t
            ≡ false)
          ⊎ (created_le s t ≡ true))
        (all_memory_sessions (current_round st now).0)
  unfolding find_forming
  find_forming-least =
      let (st', round) = current_round st now in
      let p = is_forming st' round.id condition_id task_mode in
      let sessions = all_memory_sessions st' in
      All_of_keep (λ t. created_le s t ≡ true) p sessions
        (first-least created_le created_le_total created_le_trans (keep p sessions) found)

-- The lobby that a participant joins is stored, waits in the open round, and has a free seat; and
-- no other lobby that qualifies was created earlier.
pub find_forming-IsOldest :
    {N : Type 0} ⦃n : Number N⦄ (st : StoreState N) (condition_id : Option Text)
    (task_mode : Option TaskMode) (now : ℕ) (s : Session N)
    → (find_forming st condition_id task_mode now).1 ≡ some s
    → Among s (all_memory_sessions (current_round st now).0)
      × (is_waiting s.status ≡ true)
      × (s.round_id ≡ (current_round st now).1.id)
      × (length s.participants < s.condition.group_size)
      × All
          (λ t.
            (is_forming
                (current_round st now).0
                (current_round st now).1.id
                condition_id
                task_mode
                t
              ≡ false)
            ⊎ (created_le s t ≡ true))
          (all_memory_sessions (current_round st now).0)
find_forming-IsOldest st condition_id task_mode now s found =
    let (stored, passes) = find_forming_stored st condition_id task_mode now found in
    let (w, r, l) =
      forming_parts (current_round st now).0 (current_round st now).1.id condition_id task_mode s
        passes in
    (stored, w, r, l, find_forming-least st condition_id task_mode now found)
