-- ===== src/Chat/Runtime/Tidy.antt =====
-- What stays true of a runtime while a session is recorded: nothing is recorded twice.
use Prim.Native.Nat.{ℕ}
use gdm_platform.Common.{
  Text, Text-eq, List, [], ◌∷◌, ◌++◌, map, any, contains, Unique, Unique-snoc, if◌then◌else◌, leb,
  ◌≡◌, refl, sym, ap, ◌∙◌, inl, inr, arith, Bool-cases, ◌==◌, text_eq_iff,
}
use gdm_platform.Shared.Interventions.{InterventionLog, WindowEvaluation}
use gdm_platform.Shared.Models.{
  Message, Ranking, BehavioralEvent, ContributionClassification, ClassificationFailure,
}
use gdm_platform.Chat.Runtime.{
  SessionRuntime, replace_or_push, has_ranking_event, record_message, record_ranking,
  record_behavior, record_classification, record_window_evaluation, claim_window_boundary,
  record_classification_failure, mark_processed, record_intervention, mark_ended,
}

map-snoc :
    {T : Type 0} (key : T → Text) (xs : List T) (x : T)
    → map key (xs ++ x ∷ []) ≡ map key xs ++ key x ∷ []
map-snoc key [] x = refl
map-snoc key (y ∷ ys) x = ap (◌∷◌ (key y)) (map-snoc key ys x)

pub any-contains :
    {T : Type 0} (key : T → Text) (j : Text) (xs : List T)
    → any (λ x. key x == j) xs ≡ contains (map key xs) j
unfolding contains
any-contains key j [] = refl
any-contains key j (x ∷ xs) = ground (arith, any-contains key j xs)

pub map-replace_or_push :
    {T : Type 0} (key : T → Text) (item : T) (xs : List T)
    → map key (replace_or_push key item xs)
      ≡ (if contains (map key xs) (key item) then map key xs else map key xs ++ key item ∷ [])
unfolding replace_or_push contains
map-replace_or_push key item [] = refl
map-replace_or_push key item (x ∷ xs) = elim (Bool-cases (key x == key item)) [
  | inl hit ↦ rw hit (ap (λ k. k ∷ map key xs) (sym ((text_eq_iff (key x) (key item)).0 hit)))
  | inr miss ↦ elim (Bool-cases (contains (map key xs) (key item))) [
    | inl old ↦ rw (miss, old) (ap (◌∷◌ (key x)) (map-replace_or_push key item xs ∙ rw old refl))
    | inr new ↦ rw (miss, new) (ap (◌∷◌ (key x)) (map-replace_or_push key item xs ∙ rw new refl))
  ]
]

replace_or_push-Unique :
    {T : Type 0} (key : T → Text) (item : T) (xs : List T)
    → Unique (map key xs)
    → Unique (map key (replace_or_push key item xs))
replace_or_push-Unique key item xs u = elim (Bool-cases (contains (map key xs) (key item))) [
  | inl old ↦ rw (map-replace_or_push key item xs, old) u
  | inr new ↦ rw (map-replace_or_push key item xs, new) (Unique-snoc (map key xs) (key item) u new)
]

-- One recording operation of the runtime.
pub data Recording (N : Type 0) : Type 0 where
  message : Message → Recording N
  ranking : Ranking → Recording N
  behavior : BehavioralEvent N → Recording N
  classification : ContributionClassification N → Recording N
  failure : ClassificationFailure → Recording N
  evaluation : WindowEvaluation N → Recording N
  boundary : (window_end_ms : ℕ) → Recording N
  processed : (event_id : Text) → Recording N
  intervention : InterventionLog N → Recording N
  end : Recording N

module _ {N : Type 0} where
  -- The index of the messages is that of the log, and no message, behavioural event,
  -- classification, failure or processed event stands twice.
  pub record IsTidy (runtime : SessionRuntime N) : Type 0 where
    pub indexed : runtime.by_id ≡ map (λ m. m.id) runtime.messages
    pub messages : Unique runtime.by_id
    pub events : Unique (map (λ e. e.id) runtime.behavioral_events)
    pub classifications : Unique (map (λ c. c.message_id) runtime.contribution_classifications)
    pub failures : Unique (map (λ f. f.message_id) runtime.classification_failures)
    pub processed : Unique runtime.processed_event_ids

  record_message-IsTidy :
      (runtime : SessionRuntime N) (item : Message)
      → IsTidy runtime
      → IsTidy (record_message runtime item)
  unfolding record_message
  record_message-IsTidy runtime item tidy = elim (Bool-cases (contains runtime.by_id item.id)) [
    | inl old ↦ rw (old, record_message) tidy
    | inr new ↦
        rw (new, record_message)
          (record {
            indexed =
                ap (λ ids. ids ++ item.id ∷ []) tidy.indexed
                ∙ sym (map-snoc (λ m. m.id) runtime.messages item);
            messages = Unique-snoc runtime.by_id item.id tidy.messages new;
            events = tidy.events;
            classifications = tidy.classifications;
            failures = tidy.failures;
            processed = tidy.processed;
          })
  ]

  record_behavior-IsTidy :
      (runtime : SessionRuntime N) (event : BehavioralEvent N)
      → IsTidy runtime
      → IsTidy (record_behavior runtime event)
  unfolding record_behavior
  record_behavior-IsTidy runtime event tidy =
      elim (Bool-cases (any (λ item. item.id == event.id) runtime.behavioral_events)) [
        | inl old ↦ rw (old, record_behavior) tidy
        | inr new ↦
            rw (new, record_behavior)
              (record {
                indexed = tidy.indexed;
                messages = tidy.messages;
                events = rw (map-snoc (λ e. e.id) runtime.behavioral_events event) (
                    Unique-snoc (map (λ e. e.id) runtime.behavioral_events) event.id tidy.events
                      (sym (any-contains (λ e. e.id) event.id runtime.behavioral_events) ∙ new));
                classifications = tidy.classifications;
                failures = tidy.failures;
                processed = tidy.processed;
              })
      ]

  mark_processed-IsTidy :
      (runtime : SessionRuntime N) (event_id : Text)
      → IsTidy runtime
      → IsTidy (mark_processed runtime event_id)
  unfolding mark_processed
  mark_processed-IsTidy runtime event_id tidy = record {
    indexed = tidy.indexed;
    messages = tidy.messages;
    events = tidy.events;
    classifications = tidy.classifications;
    failures = tidy.failures;
    processed = elim (Bool-cases (contains runtime.processed_event_ids event_id)) [
      | inl old ↦ rw old tidy.processed
      | inr new ↦ rw new (Unique-snoc runtime.processed_event_ids event_id tidy.processed new)
    ];
  }

  record_ranking-IsTidy :
      (runtime : SessionRuntime N) (item : Ranking)
      → IsTidy runtime
      → IsTidy (record_ranking runtime item)
  unfolding record_ranking
  record_ranking-IsTidy runtime item tidy =
      elim (Bool-cases (has_ranking_event runtime.ranking_history item.event_id)) [
        | inl old ↦ rw (old, record_ranking) tidy
        | inr new ↦
            rw (new, record_ranking)
              (record {
                indexed = tidy.indexed;
                messages = tidy.messages;
                events = tidy.events;
                classifications = tidy.classifications;
                failures = tidy.failures;
                processed = tidy.processed;
              })
      ]

  claim-IsTidy :
      (runtime : SessionRuntime N) (window_end_ms : ℕ)
      → IsTidy runtime
      → IsTidy (claim_window_boundary runtime window_end_ms).0
  unfolding claim_window_boundary
  claim-IsTidy runtime window_end_ms tidy =
      elim (Bool-cases (leb window_end_ms runtime.last_window_boundary_ms)) [
        | inl late ↦ rw (late, claim_window_boundary) tidy
        | inr due ↦
            rw (due, claim_window_boundary)
              (record {
                indexed = tidy.indexed;
                messages = tidy.messages;
                events = tidy.events;
                classifications = tidy.classifications;
                failures = tidy.failures;
                processed = tidy.processed;
              })
      ]

  unfoldable pub apply : SessionRuntime N → Recording N → SessionRuntime N
  unfolding record_message record_ranking record_behavior record_classification
      record_classification_failure record_window_evaluation claim_window_boundary mark_processed
      record_intervention mark_ended
  apply runtime (Recording.message item) = record_message runtime item
  apply runtime (Recording.ranking item) = record_ranking runtime item
  apply runtime (Recording.behavior item) = record_behavior runtime item
  apply runtime (Recording.classification item) = record_classification runtime item
  apply runtime (Recording.failure item) = record_classification_failure runtime item
  apply runtime (Recording.evaluation item) = record_window_evaluation runtime item
  apply runtime (Recording.boundary window_end_ms) = (claim_window_boundary runtime window_end_ms).0
  apply runtime (Recording.processed event_id) = mark_processed runtime event_id
  apply runtime (Recording.intervention item) = record_intervention runtime item
  apply runtime Recording.end = mark_ended runtime

  apply-IsTidy :
      (runtime : SessionRuntime N) (recording : Recording N)
      → IsTidy runtime
      → IsTidy (apply runtime recording)
  unfolding apply record_classification record_classification_failure record_window_evaluation
      record_intervention mark_ended
  apply-IsTidy runtime (Recording.message item) tidy = record_message-IsTidy runtime item tidy
  apply-IsTidy runtime (Recording.ranking item) tidy = record_ranking-IsTidy runtime item tidy
  apply-IsTidy runtime (Recording.behavior item) tidy = record_behavior-IsTidy runtime item tidy
  apply-IsTidy runtime (Recording.classification item) tidy = record {
    indexed = tidy.indexed;
    messages = tidy.messages;
    events = tidy.events;
    classifications =
        replace_or_push-Unique (λ c. c.message_id) item runtime.contribution_classifications
          tidy.classifications;
    failures = tidy.failures;
    processed = tidy.processed;
  }
  apply-IsTidy runtime (Recording.failure item) tidy = record {
    indexed = tidy.indexed;
    messages = tidy.messages;
    events = tidy.events;
    classifications = tidy.classifications;
    failures =
        replace_or_push-Unique (λ f. f.message_id) item runtime.classification_failures
          tidy.failures;
    processed = tidy.processed;
  }
  apply-IsTidy runtime (Recording.evaluation item) tidy = record {
    indexed = tidy.indexed;
    messages = tidy.messages;
    events = tidy.events;
    classifications = tidy.classifications;
    failures = tidy.failures;
    processed = tidy.processed;
  }
  apply-IsTidy runtime (Recording.boundary window_end_ms) tidy =
      claim-IsTidy runtime window_end_ms tidy
  apply-IsTidy runtime (Recording.processed event_id) tidy =
      mark_processed-IsTidy runtime event_id tidy
  apply-IsTidy runtime (Recording.intervention item) tidy = record {
    indexed = tidy.indexed;
    messages = tidy.messages;
    events = tidy.events;
    classifications = tidy.classifications;
    failures = tidy.failures;
    processed = tidy.processed;
  }
  apply-IsTidy runtime Recording.end tidy = record {
    indexed = tidy.indexed;
    messages = tidy.messages;
    events = tidy.events;
    classifications = tidy.classifications;
    failures = tidy.failures;
    processed = tidy.processed;
  }

  unfoldable pub apply_all : SessionRuntime N → List (Recording N) → SessionRuntime N
  unfolding apply
  apply_all runtime [] = runtime
  apply_all runtime (recording ∷ recordings) = apply_all (apply runtime recording) recordings

  -- From a tidy runtime, whatever is recorded in whatever order: the index of the messages stays
  -- that of the log, and no message, behavioural event, classification, failure or processed event
  -- comes to stand twice.
  pub apply_all-IsTidy :
      (runtime : SessionRuntime N) (recordings : List (Recording N))
      → IsTidy runtime
      → IsTidy (apply_all runtime recordings)
  unfolding apply_all
  apply_all-IsTidy runtime [] tidy = tidy
  apply_all-IsTidy runtime (recording ∷ recordings) tidy =
      apply_all-IsTidy (apply runtime recording) recordings (apply-IsTidy runtime recording tidy)
