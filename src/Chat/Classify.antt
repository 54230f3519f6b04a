-- ===== src/Chat/Classify.antt =====
-- rules/bot-rules.ts: `onEvent` and the classification of a message.
pub mod Accounted
use Prim.Native.Nat.{ℕ}
use gdm_platform.Common.{
  Text, Text-eq, text, List, [], ◌∷◌, ◌++◌, Option, none, some, Bool, true, false, any,
  if◌then◌else◌, ◌==◌, map,
}
use gdm_platform.Shared.Number.{Number}
use gdm_platform.Shared.Interventions.{LlmMode}
use gdm_platform.Shared.Models.{Message, ContributionClassification, ClassificationFailure}
use gdm_platform.Shared.Config.{normalize_config}
use gdm_platform.Chat.Runtime.{SessionRuntime, record_classification, record_classification_failure}
use gdm_platform.Chat.Split.{is_active_mode}
use gdm_platform.Chat.Window.{Membership, resolve_llm_mode, get_participant_ids}

pub record ClassifierContext : Type 0 where
  pub prior_messages : List Message
  pub task_items : List Text
  pub participant_ids : List Text

-- What the classifier answers: it never throws.
pub data Classified (N : Type 0) : Type 0 where
  classification : ContributionClassification N → Classified N
  failure : ClassificationFailure → Classified N

-- `content` is its JSON text, which the rules do not read.
pub record TimelineEvent : Type 0 where
  pub room_id : Text
  pub type : Text
  pub sender : Text
  pub event_id : Text
  pub ts : ℕ
  pub content : Text

-- The labels of the items of `MOON_SURVIVAL`.
abbrev pub task_items : List Text
task_items =
    text "Box of matches"
    ∷ text "Food concentrate"
    ∷ text "Parachute silk"
    ∷ text "Portable heating unit"
    ∷ text "Two .45 caliber pistols"
    ∷ text "Two 100-lb tanks of oxygen"
    ∷ text "Stellar map"
    ∷ text "Life raft"
    ∷ text "Magnetic compass"
    ∷ text "First aid kit with injection needles"
    ∷ []

-- The message of the event, with the messages before it.
unfoldable pub find_message : List Message → Text → List Message → Option (List Message × Message)
find_message prior event_id [] = none
find_message prior event_id (m ∷ messages) =
    if m.id == event_id then some (prior, m) else find_message (prior ++ m ∷ []) event_id messages

module _ {N : Type 0} where
  unfoldable pub record_classified : SessionRuntime N → Classified N → SessionRuntime N
  unfolding record_classification record_classification_failure
  record_classified runtime (Classified.classification c) = record_classification runtime c
  record_classified runtime (Classified.failure f) = record_classification_failure runtime f

  unfoldable pub classify_message :
      (Message → ClassifierContext → Classified N)
      → SessionRuntime N
      → TimelineEvent
      → List Text
      → SessionRuntime N
  unfolding record_classified find_message
  classify_message classify runtime event participant_ids =
      elim (find_message [] event.event_id runtime.messages) [
        | none ↦ runtime
        | some (prior, message) ↦
            if any (λ c. c.message_id == message.id) runtime.contribution_classifications
            then runtime
            else record_classified runtime (
                classify message (record {
                  prior_messages = prior;
                  task_items = task_items;
                  participant_ids = participant_ids;
                }))
      ]

  module _ ⦃n : Number N⦄ where
    unfoldable pub on_event :
        Option Text
        → (ℕ → Option (List Text))
        → Option (Message → ClassifierContext → Classified N)
        → Membership
        → SessionRuntime N
        → TimelineEvent
        → Membership × SessionRuntime N
    unfolding classify_message get_participant_ids resolve_llm_mode normalize_config
    on_event env_mode joined classifier members runtime event =
        elim (event.type == text "m.room.message") [
          | false ↦ (members, runtime)
          | true ↦
              elim (is_active_mode (resolve_llm_mode env_mode (normalize_config runtime.config))) [
                | false ↦ (members, runtime)
                | true ↦ elim classifier [
                  | none ↦ (members, runtime)
                  | some classify ↦
                      let asked = get_participant_ids joined runtime.messages members in
                      (asked.0, classify_message classify runtime event asked.1)
                ]
              ]
        ]
