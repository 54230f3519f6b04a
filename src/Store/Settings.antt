-- ===== src/Store/Settings.antt =====
-- store/store.service.ts: the study settings and the conditions in memory.
use gdm_platform.Common.{Text, Text-eq, List, [], ◌∷◌, Option, none, some, ◌==◌, if◌then◌else◌}
use gdm_platform.Shared.Words.{trim}
use gdm_platform.Shared.Number.{Number}
use gdm_platform.Shared.Models.{StudySettings, Condition}
use gdm_platform.Store.State.{StoreState}
use gdm_platform.Store.Conditions.{ConditionInput, normalize_condition}

-- `Partial<StudySettings>`: `none` where the value is missing or no text.
pub record SettingsPatch : Type 0 where
  pub compensation_url : Option Text
  pub no_consent_url : Option Text
  pub ineligible_url : Option Text
  pub withdrawal_url : Option Text
  pub unmatched_url : Option Text
  pub technical_failure_url : Option Text

abbrev trimmed_or : Option Text → Text → Text
trimmed_or none old = old
trimmed_or (some value) old = trim value

-- `conditions[idx] = next` of the first condition with the id, else `conditions.push(next)`.
abbrev pub replace_condition : {N : Type 0} → Condition N → List (Condition N) → List (Condition N)
replace_condition next [] = next ∷ []
replace_condition next (c ∷ cs) =
    if c.id == next.id then next ∷ cs else c ∷ replace_condition next cs

module _ {N : Type 0} where
  unfoldable pub list_conditions : StoreState N → List (Condition N)
  list_conditions st = st.conditions

  unfoldable pub get_study_settings : StoreState N → StudySettings
  get_study_settings st = st.memory_settings

  unfoldable pub update_study_settings : StoreState N → SettingsPatch → StoreState N × StudySettings
  unfolding trim
  update_study_settings st patch = (record st { memory_settings = settings }, settings)
    where
      settings : StudySettings
      settings = record {
        compensation_url = trimmed_or patch.compensation_url st.memory_settings.compensation_url;
        no_consent_url = trimmed_or patch.no_consent_url st.memory_settings.no_consent_url;
        ineligible_url = trimmed_or patch.ineligible_url st.memory_settings.ineligible_url;
        withdrawal_url = trimmed_or patch.withdrawal_url st.memory_settings.withdrawal_url;
        unmatched_url = trimmed_or patch.unmatched_url st.memory_settings.unmatched_url;
        technical_failure_url =
            trimmed_or patch.technical_failure_url st.memory_settings.technical_failure_url;
      }

module _ {N : Type 0} ⦃n : Number N⦄ where
  unfoldable pub upsert_condition : StoreState N → ConditionInput N → StoreState N × Condition N
  unfolding normalize_condition
  upsert_condition st condition =
      let next = normalize_condition condition in
      (record st { conditions = replace_condition next st.conditions }, next)
