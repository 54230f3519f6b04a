-- ===== src/Checkpoint/Keyed.antt =====
-- checkpoint-merge.ts: `appendUnique`, `mergeByKey` and `mergeCheckpointValues`.
pub mod Lookup
use gdm_platform.Common.{
  Text, List, [], ◌∷◌, ◌++◌, map, Bool, if◌then◌else◌, contains, absorb, values, JsMap, Text-eq,
}

module _ {ℓ} {T : Type ℓ} (key : T → Text) where
  -- The loop of `appendUnique`, over `seen` and `appended`.
  pub append_fresh : List Text → List T → List T → List T
  append_fresh seen appended [] = appended
  append_fresh seen appended (item ∷ items) =
      append_fresh (if contains seen (key item) then seen else seen ++ key item ∷ [])
        (if contains seen (key item) then appended else appended ++ item ∷ []) items

  unfoldable pub append_unique : List T → List T → List T
  unfolding append_fresh
  append_unique existing incoming = append_fresh (map key existing) existing incoming

  -- `merged.set(key(item), item)` for each item.
  abbrev pub set_all : JsMap Text T → List T → JsMap Text T
  set_all = absorb key (λ item. item) (λ current item. item)

  unfoldable pub merge_by_key : List T → List T → List T
  merge_by_key existing incoming = values (set_all (set_all [] existing) incoming)

  unfoldable pub merge_checkpoint_values : List T → List T → Bool → List T
  unfolding merge_by_key append_unique
  merge_checkpoint_values existing incoming accepts_replacement =
      if accepts_replacement
      then merge_by_key existing incoming
      else append_unique existing incoming
