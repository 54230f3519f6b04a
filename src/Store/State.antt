-- ===== src/Store/State.antt =====
-- The state of store/store.service.ts without a database, with `RoundState` of
-- store/row-mappers.ts and `MatrixCreds` of matrix/matrix.service.ts.
use Prim.Native.Nat.{ℕ}
use gdm_platform.Common.{Text, List, [], ◌∷◌, ◌++◌, Option, none, JsMap}
use gdm_platform.Shared.Timestamp.{Timestamp, to_iso}
use gdm_platform.Shared.Number.{Number}
use gdm_platform.Shared.Models.{Session, Condition, StudySettings}
use gdm_platform.Store.Conditions.{seed_conditions}

pub record RoundState : Type 0 where
  pub id : ℕ
  pub label : Text
  pub started_at : Timestamp
  pub ended_at : Option Timestamp

pub record MatrixCreds : Type 0 where
  pub user_id : Text
  pub access_token : Text

pub record StoreState (N : Type 0) : Type 0 where
  pub conditions : List (Condition N)
  pub sessions : JsMap Text (Session N)
  pub memory_creds : JsMap Text MatrixCreds
  pub memory_settings : StudySettings
  pub memory_rounds : List RoundState

abbrev pub empty_study_settings : StudySettings
empty_study_settings = record {
  compensation_url = [];
  no_consent_url = [];
  ineligible_url = [];
  withdrawal_url = [];
  unmatched_url = [];
  technical_failure_url = [];
}

-- `{ id, label, startedAt }`, a round that is open.
abbrev pub open_round : ℕ → Text → ℕ → RoundState
open_round id label now = record {
  id = id;
  label = label;
  started_at = to_iso now;
  ended_at = none;
}

module _ {N : Type 0} ⦃n : Number N⦄ where
  -- `seedMemory`, by the conditions that are there.
  abbrev pub seeded : List (Condition N) → StoreState N → ℕ → StoreState N
  seeded (_ ∷ _) st now = st
  seeded [] st now = record st {
    conditions = seed_conditions;
    memory_rounds = st.memory_rounds ++ open_round 1 [] now ∷ [];
  }

  unfoldable pub seed_memory : StoreState N → ℕ → StoreState N
  seed_memory st now = seeded st.conditions st now

  -- The store after its constructor.
  unfoldable pub new_store : ℕ → StoreState N
  unfolding seed_memory
  new_store now =
      seed_memory
        (record {
          conditions = [];
          sessions = [];
          memory_creds = [];
          memory_settings = empty_study_settings;
          memory_rounds = [];
        })
        now
