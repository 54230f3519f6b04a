-- ===== src/Chat/Classify/Accounted.antt =====
-- The coverage of the classifier: which messages are accounted for.
use Prim.Native.Nat.{ℕ}
use mathlib.Core.Path.{subst}
use gdm_platform.Common.{
  Text, Text-eq, text, List, [], ◌∷◌, ◌++◌, map, any, contains, contains-append, Option, some, true,
  ◌==◌, ==_refl, text_eq_iff, ◌≡◌, refl, sym, ◌∙◌, ◌⊎◌, inl, inr, arith, Bool-cases,
}
use gdm_platform.Shared.Number.{Number}
use gdm_platform.Shared.Config.{normalize_config}
use gdm_platform.Shared.Models.{Message}
use gdm_platform.Chat.Runtime.{
  SessionRuntime, replace_or_push, record_classification, record_classification_failure,
}
use gdm_platform.Chat.Runtime.Tidy.{map-replace_or_push, any-contains}
use gdm_platform.Chat.Split.{is_active_mode}
use gdm_platform.Chat.Window.{Membership, resolve_llm_mode, get_participant_ids}
use gdm_platform.Chat.Classify.{
  ClassifierContext, Classified, TimelineEvent, task_items, find_message, record_classified,
  classify_message, on_event,
}

-- The message that an answer is about.
abbrev pub subject : {N : Type 0} → Classified N → Text
subject (Classified.classification c) = c.message_id
subject (Classified.failure f) = f.message_id

contains-replace_or_push :
    {T : Type 0} (key : T → Text) (item : T) (xs : List T)
    → contains (map key (replace_or_push key item xs)) (key item) ≡ true
unfolding contains
contains-replace_or_push key item xs = elim (Bool-cases (contains (map key xs) (key item))) [
  | inl old ↦ rw (map-replace_or_push key item xs, old) old
  | inr new ↦
      rw (map-replace_or_push key item xs, new)
        (contains-append (map key xs) (key item ∷ []) (key item)
          ∙ ground (arith, ==_refl (key item)))
]

found_message :
    (prior : List Message) (event_id : Text) (messages : List Message)
    → contains (map (λ m. m.id) messages) event_id ≡ true
    → (p : List Message) × (m : Message) × (find_message prior event_id messages ≡ some (p, m))
      × (m.id ≡ event_id)
unfolding find_message contains
found_message prior event_id [] h = cc
found_message prior event_id (m ∷ messages) h = elim (Bool-cases (m.id == event_id)) [
  | inl hit ↦ (prior, m, rw hit refl, (text_eq_iff m.id event_id).0 hit)
  | inr miss ↦
      let (p, m', at, same) = found_message (prior ++ m ∷ []) event_id messages (ground arith) in
      (p, m', rw miss at, same)
]

module _ {N : Type 0} where
  -- The message has a classification, or a failure to classify it.
  abbrev pub IsAccounted : Text → SessionRuntime N → Type 0
  IsAccounted id runtime =
      (contains (map (λ c. c.message_id) runtime.contribution_classifications) id ≡ true)
      ⊎ (contains (map (λ f. f.message_id) runtime.classification_failures) id ≡ true)

  record_classified-IsAccounted :
      (runtime : SessionRuntime N) (answer : Classified N)
      → IsAccounted (subject answer) (record_classified runtime answer)
  unfolding record_classified record_classification record_classification_failure
  record_classified-IsAccounted runtime (Classified.classification c) =
      inl (contains-replace_or_push (λ c. c.message_id) c runtime.contribution_classifications)
  record_classified-IsAccounted runtime (Classified.failure f) =
      inr (contains-replace_or_push (λ f. f.message_id) f runtime.classification_failures)

  classify_message-IsAccounted :
      (classify : Message → ClassifierContext → Classified N)
      → ((m : Message) (context : ClassifierContext) → subject (classify m context) ≡ m.id)
      → (runtime : SessionRuntime N) (event : TimelineEvent) (participant_ids : List Text)
      → contains (map (λ m. m.id) runtime.messages) event.event_id ≡ true
      → IsAccounted event.event_id (classify_message classify runtime event participant_ids)
  unfolding classify_message
  classify_message-IsAccounted classify answers runtime event participant_ids h =
      let (prior, m, found, same) = found_message [] event.event_id runtime.messages h in
      elim (Bool-cases (any (λ c. c.message_id == m.id) runtime.contribution_classifications)) [
        | inl old ↦
            rw (found, old, classify_message)
              (subst (λ id. IsAccounted id runtime) same
                (inl (
                  sym (any-contains (λ c. c.message_id) m.id runtime.contribution_classifications)
                  ∙ old)))
        | inr new ↦
            let context : ClassifierContext = record {
              prior_messages = prior;
              task_items = task_items;
              participant_ids = participant_ids;
            } in
            rw (found, new, classify_message)
              (subst (λ id. IsAccounted id (record_classified runtime (classify m context)))
                (answers m context ∙ same)
                (record_classified-IsAccounted runtime (classify m context)))
      ]

  -- Where the mode is active and a classifier is there, which answers about the message that it is
  -- asked about, every recorded message is accounted for once its event has been handled: it has a
  -- classification, or a failure to classify it.
  pub message-IsAccounted :
      ⦃n : Number N⦄ (env_mode : Option Text) (joined : ℕ → Option (List Text))
      (classify : Message → ClassifierContext → Classified N) (members : Membership)
      (runtime : SessionRuntime N) (event : TimelineEvent)
      → ((m : Message) (context : ClassifierContext) → subject (classify m context) ≡ m.id)
      → (event.type == text "m.room.message") ≡ true
      → is_active_mode (resolve_llm_mode env_mode (normalize_config runtime.config)) ≡ true
      → contains (map (λ m. m.id) runtime.messages) event.event_id ≡ true
      → IsAccounted event.event_id
          (on_event env_mode joined (some classify) members runtime event).1
  unfolding on_event
  message-IsAccounted env_mode joined classify members runtime event answers typed active held =
      rw (typed, active, on_event)
        (classify_message-IsAccounted classify answers runtime event
          (get_participant_ids joined runtime.messages members).1 held)
