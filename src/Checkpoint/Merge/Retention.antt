-- ===== src/Checkpoint/Merge/Retention.antt =====
-- A merge erases nothing that the session has: every key of every collection is there afterwards.
use gdm_platform.Common.{
  Text, Text-eq, List, [], ◌∷◌, ◌++◌, map, Bool, true, false, contains, distinct, add_distinct, ◌≡◌,
  refl, ap, arith, contains-add_distinct, contains-append, if◌then◌else◌, or_else,
}
use gdm_platform.Shared.Models.{Session}
use gdm_platform.Shared.Dto.{CheckpointSessionRequest}
use gdm_platform.Checkpoint.Keyed.{merge_checkpoint_values, append_unique, merge_by_key}
use gdm_platform.Checkpoint.Keyed.Lookup.{contains-merge_checkpoint_values}
use gdm_platform.Checkpoint.Rankings.{ranking_key}
use gdm_platform.Checkpoint.Reactions.Recorded.{map-merge_recorded}
use gdm_platform.Checkpoint.Reactions.Visible.{map-merge_messages}
use gdm_platform.Checkpoint.Merge.{
  or_empty, merge_filtered, accepts_checkpoint_state, merge_checkpoint_into_session,
  without_ranking, is_etherpad,
}

-- Every key that the first list has, the second has.
abbrev pub Within {ℓ} : {T : Type ℓ} → (T → Text) → List T → List T → Type 0
Within key before after =
    (j : Text) → contains (map key before) j ≡ true → contains (map key after) j ≡ true

Within-values {ℓ} :
    {T : Type ℓ} (key : T → Text) (before incoming : List T) (accepts : Bool)
    → Within key before (merge_checkpoint_values key before incoming accepts)
Within-values key before incoming accepts j h =
    rw (contains-merge_checkpoint_values key before incoming accepts j) (ground arith)

Within-merge_by_key {ℓ} :
    {T : Type ℓ} (key : T → Text) (before incoming : List T)
    → Within key before (merge_by_key key before incoming)
unfolding merge_checkpoint_values
Within-merge_by_key key before incoming = Within-values key before incoming true

Within-append_unique {ℓ} :
    {T : Type ℓ} (key : T → Text) (before incoming : List T)
    → Within key before (append_unique key before incoming)
unfolding merge_checkpoint_values
Within-append_unique key before incoming = Within-values key before incoming false

contains-distinct_append :
    (xs ys : List Text) (j : Text) → contains xs j ≡ true → contains (distinct (xs ++ ys)) j ≡ true
unfolding contains
contains-distinct_append xs ys j h =
    ground (arith, contains-add_distinct [] (xs ++ ys) j, contains-append xs ys j)

contains-add_distinct-distinct :
    (xs ys : List Text) (j : Text)
    → contains xs j ≡ true
    → contains (add_distinct (distinct xs) ys) j ≡ true
unfolding contains
contains-add_distinct-distinct xs ys j h =
    ground (arith, contains-add_distinct (distinct xs) ys j, contains-add_distinct [] xs j)

-- Window evaluations are left out: the deduplication drops records on purpose.
pub record Retains {N : Type 0} (before after : Session N) : Type 0 where
  pub messages : Within (λ m. m.id) before.chat.messages after.chat.messages
  pub rankings :
      Within ranking_key (or_empty before.ranking_history) (or_empty after.ranking_history)
  pub interventions : Within (λ i. i.id) before.interventions after.interventions
  pub events : Within (λ e. e.id) before.behavioral_events after.behavioral_events
  pub classifications :
      Within
        (λ c. c.message_id)
        before.contribution_classifications
        after.contribution_classifications
  pub failures :
      Within
        (λ f. f.message_id)
        (or_empty before.classification_failures)
        (or_empty after.classification_failures)
  pub reactions :
      Within (λ r. r.event_id) (or_empty before.reaction_events) (or_empty after.reaction_events)
  pub tombstones :
      Within
        (λ t. t)
        (or_empty before.redacted_reaction_event_ids)
        (or_empty after.redacted_reaction_event_ids)
  pub processed :
      Within (λ t. t) (or_empty before.processed_event_ids) (or_empty after.processed_event_ids)

map-id : (xs : List Text) → map (λ t. t) xs ≡ xs
map-id [] = refl
map-id (x ∷ xs) = ap (◌∷◌ x) (map-id xs)

module _ {N : Type 0} (session : Session N) (checkpoint : CheckpointSessionRequest N) where
  abbrev accepts : Bool
  accepts = accepts_checkpoint_state checkpoint.revision (or_else session.checkpoint_revision 0)

  merge_filtered-Retains : Retains session (merge_filtered session checkpoint)
  unfolding merge_filtered
  merge_filtered-Retains = record {
    messages = λ j h. rw (map-merge_messages _ session.chat.messages checkpoint.messages) (
        contains-add_distinct-distinct (map (λ m. m.id) session.chat.messages)
          (map (λ m. m.id) checkpoint.messages) j h);
    rankings =
        Within-append_unique ranking_key (or_empty session.ranking_history)
          checkpoint.ranking_history;
    interventions =
        Within-merge_by_key (λ i. i.id) session.interventions (or_empty checkpoint.interventions);
    events =
        Within-values (λ e. e.id) session.behavioral_events (or_empty checkpoint.behavioral_events)
          accepts;
    classifications =
        Within-values (λ c. c.message_id) session.contribution_classifications
          (or_empty checkpoint.contribution_classifications) accepts;
    failures =
        Within-values (λ f. f.message_id) (or_empty session.classification_failures)
          (or_empty checkpoint.classification_failures) accepts;
    reactions = λ j h.
        rw
          (map-merge_recorded (or_empty session.reaction_events)
            (or_empty checkpoint.reaction_events))
          (contains-add_distinct-distinct (map (λ r. r.event_id) (or_empty session.reaction_events))
            (map (λ r. r.event_id) (or_empty checkpoint.reaction_events)) j h);
    tombstones = λ j h. rw map-id (
        contains-distinct_append (or_empty session.redacted_reaction_event_ids) _ j
          (rw map-id at h));
    processed = λ j h. rw map-id (
        contains-distinct_append (or_empty session.processed_event_ids)
          (or_empty checkpoint.processed_event_ids) j (rw map-id at h));
  }

-- No merge, of a stale snapshot or a fresh one, erases a record from the session: the keys of its
-- messages, rankings, interventions, behavioural events, classifications, failures and reactions,
-- its tombstones and its processed events are all there afterwards.
pub merge-Retains :
    {N : Type 0} (session : Session N) (checkpoint : CheckpointSessionRequest N)
    → Retains session (merge_checkpoint_into_session session checkpoint)
unfolding merge_checkpoint_into_session
merge-Retains session checkpoint = merge_filtered-Retains session (
    if is_etherpad session.condition.config.workspace_mode
    then without_ranking checkpoint
    else checkpoint)
