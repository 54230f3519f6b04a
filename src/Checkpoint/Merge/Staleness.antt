-- ===== src/Checkpoint/Merge/Staleness.antt =====
-- Late snapshots: what a stale one may change, and which of several snapshots wins.
use gdm_platform.Common.{
  Text, Text-eq, List, [], ◌∷◌, ◌++◌, Option, some, Bool, true, false, ◌&&◌, find_key, get_last?,
  All, ◌≡◌, refl, ap, ◌∙◌, arith, if◌then◌else◌, ◌≤◌, ◌<◌, ℕ, or_else, is_some,
}
use gdm_platform.Shared.Models.{Session, Ranking}
use gdm_platform.Shared.Dto.{CheckpointSessionRequest}
use gdm_platform.Checkpoint.Keyed.{merge_checkpoint_values}
use gdm_platform.Checkpoint.Keyed.Lookup.{merge_checkpoint_values-stale}
use gdm_platform.Checkpoint.Merge.{
  or_empty, merge_filtered, merge_checkpoint_into_session, without_ranking, is_etherpad,
  accepts_checkpoint_state, is_non_empty, merged_ranking,
}

-- Whatever value the first list finds under a key, the second finds too.
abbrev pub Unchanged {ℓ} : {T : Type ℓ} → (T → Text) → List T → List T → Type ℓ
Unchanged {T = T} key before after =
    (j : Text) (v : T) → find_key key j before ≡ some v → find_key key j after ≡ some v

abbrev next_revision : Option ℕ → Option ℕ → Option ℕ
next_revision incoming stored =
    if accepts_checkpoint_state incoming (or_else stored 0) && is_some incoming
    then incoming
    else stored

non_empty_of_last :
    (rankings : List Ranking) {last : Ranking}
    → get_last? rankings ≡ some last
    → is_non_empty rankings ≡ true
unfolding is_non_empty
non_empty_of_last [] p = cc
non_empty_of_last (x ∷ rankings) p = refl

module _ {N : Type 0} where
  -- `session.checkpointRevision ?? 0`.
  abbrev pub stored_revision : Session N → ℕ
  stored_revision session = or_else session.checkpoint_revision 0

  pub record KeepsState (before after : Session N) : Type 0 where
    pub ranking : after.ranking ≡ before.ranking
    pub runtime_state : after.runtime_state ≡ before.runtime_state
    pub revision : after.checkpoint_revision ≡ before.checkpoint_revision
    pub events : Unchanged (λ e. e.id) before.behavioral_events after.behavioral_events
    pub classifications :
        Unchanged
          (λ c. c.message_id)
          before.contribution_classifications
          after.contribution_classifications
    pub failures :
        Unchanged
          (λ f. f.message_id)
          (or_empty before.classification_failures)
          (or_empty after.classification_failures)

  module _ (session : Session N) (checkpoint : CheckpointSessionRequest N) where
    abbrev accepts : Bool
    accepts = accepts_checkpoint_state checkpoint.revision (stored_revision session)

    values-stale {ℓ} :
        {T : Type ℓ} (key : T → Text) (before incoming : List T) (b : Bool)
        → b ≡ false
        → Unchanged key before (merge_checkpoint_values key before incoming b)
    values-stale key before incoming true p = cc
    values-stale key before incoming false p = merge_checkpoint_values-stale key before incoming

    filtered_stale : accepts ≡ false → KeepsState session (merge_filtered session checkpoint)
    unfolding merge_filtered
    filtered_stale stale = record {
      ranking = rw stale;
      runtime_state = rw stale;
      revision = rw stale;
      events =
          values-stale (λ e. e.id) session.behavioral_events (or_empty checkpoint.behavioral_events)
            accepts stale;
      classifications =
          values-stale (λ c. c.message_id) session.contribution_classifications
            (or_empty checkpoint.contribution_classifications) accepts stale;
      failures =
          values-stale (λ f. f.message_id) (or_empty session.classification_failures)
            (or_empty checkpoint.classification_failures) accepts stale;
    }

  effective_revision :
      (b : Bool) (checkpoint : CheckpointSessionRequest N)
      → (if b then without_ranking checkpoint else checkpoint).revision ≡ checkpoint.revision
  unfolding without_ranking
  effective_revision true checkpoint = refl
  effective_revision false checkpoint = refl

  -- A snapshot with a revision below the stored one leaves the ranking, the rule state and the
  -- revision as they were, and rolls back no event, classification or failure.
  pub stale-KeepsState :
      (session : Session N) (checkpoint : CheckpointSessionRequest N) (revision : ℕ)
      → checkpoint.revision ≡ some revision
      → revision < stored_revision session
      → KeepsState session (merge_checkpoint_into_session session checkpoint)
  unfolding merge_checkpoint_into_session accepts_checkpoint_state
  stale-KeepsState session checkpoint revision versioned late =
      let b = is_etherpad session.condition.config.workspace_mode in
      filtered_stale session (if b then without_ranking checkpoint else checkpoint)
        (rw (effective_revision b checkpoint, versioned) (ground arith))

  merge-revision :
      (session : Session N) (checkpoint : CheckpointSessionRequest N)
      → (merge_checkpoint_into_session session checkpoint).checkpoint_revision
        ≡ next_revision checkpoint.revision session.checkpoint_revision
  unfolding merge_checkpoint_into_session merge_filtered
  merge-revision session checkpoint =
      ap (λ incoming. next_revision incoming session.checkpoint_revision)
        (effective_revision (is_etherpad session.condition.config.workspace_mode) checkpoint)

  -- The stored revision never falls.
  pub stored_revision-le :
      (session : Session N) (checkpoint : CheckpointSessionRequest N)
      → stored_revision session ≤ stored_revision (merge_checkpoint_into_session session checkpoint)
  unfolding accepts_checkpoint_state
  stored_revision-le session checkpoint = ground (arith, merge-revision session checkpoint)

  merge-condition :
      (session : Session N) (checkpoint : CheckpointSessionRequest N)
      → (merge_checkpoint_into_session session checkpoint).condition ≡ session.condition
  unfolding merge_checkpoint_into_session merge_filtered
  merge-condition session checkpoint = refl

  merge_fresh :
      (session : Session N) (checkpoint : CheckpointSessionRequest N) (revision : ℕ)
      (last : Ranking)
      → is_etherpad session.condition.config.workspace_mode ≡ false
      → checkpoint.revision ≡ some revision
      → stored_revision session ≤ revision
      → get_last? checkpoint.ranking_history ≡ some last
      → (merge_checkpoint_into_session session checkpoint).ranking ≡ last
  unfolding merge_checkpoint_into_session merge_filtered accepts_checkpoint_state merged_ranking
  merge_fresh session checkpoint revision last plain versioned fresh held =
      rw (plain, versioned, held, non_empty_of_last checkpoint.ranking_history held) (ground arith)

  -- Snapshots merged one after another, in the order in which they arrive.
  unfoldable pub merge_all : Session N → List (CheckpointSessionRequest N) → Session N
  merge_all session [] = session
  merge_all session (checkpoint ∷ rest) =
      merge_all (merge_checkpoint_into_session session checkpoint) rest

  -- A versioned snapshot with a revision below `newest`.
  abbrev pub IsOlder : ℕ → CheckpointSessionRequest N → Type 0
  IsOlder newest checkpoint = (q : ℕ) × (checkpoint.revision ≡ some q) × (q < newest)

  older_before :
      (newest : ℕ) (session : Session N) (earlier : List (CheckpointSessionRequest N))
      → All (IsOlder newest) earlier
      → stored_revision session ≤ newest
      → (stored_revision (merge_all session earlier) ≤ newest)
        × ((merge_all session earlier).condition ≡ session.condition)
  unfolding merge_all accepts_checkpoint_state
  older_before newest session [] older below = (below, refl)
  older_before newest session (checkpoint ∷ earlier) ((q, versioned, less), older) below =
      let (le, same) =
        older_before newest (merge_checkpoint_into_session session checkpoint) earlier older
          (ground (arith, merge-revision session checkpoint)) in
      (le, same ∙ merge-condition session checkpoint)

  older_after :
      (newest : ℕ) (session : Session N) (later : List (CheckpointSessionRequest N))
      → All (IsOlder newest) later
      → session.checkpoint_revision ≡ some newest
      → ((merge_all session later).checkpoint_revision ≡ some newest)
        × ((merge_all session later).ranking ≡ session.ranking)
  unfolding merge_all
  older_after newest session [] older at = (at, refl)
  older_after newest session (checkpoint ∷ later) ((q, versioned, less), older) at =
      let kept = stale-KeepsState session checkpoint q versioned (rw at less) in
      let (revision, ranking) =
        older_after newest (merge_checkpoint_into_session session checkpoint) later older
          (kept.revision ∙ at) in
      (revision, ranking ∙ kept.ranking)

  merge_all-append :
      (session : Session N) (xs ys : List (CheckpointSessionRequest N))
      → merge_all session (xs ++ ys) ≡ merge_all (merge_all session xs) ys
  unfolding merge_all
  merge_all-append session [] ys = refl
  merge_all-append session (x ∷ xs) ys =
      merge_all-append (merge_checkpoint_into_session session x) xs ys

  -- However snapshots overtake one another, the one with the highest revision decides: after it
  -- and any older ones before and behind it, the stored revision is its own, and the ranking is
  -- the last of its history, if the session is not an Etherpad session and the stored revision
  -- was not above it at the start.
  pub newest_wins :
      (session : Session N) (earlier later : List (CheckpointSessionRequest N))
      (checkpoint : CheckpointSessionRequest N) (newest : ℕ) (last : Ranking)
      → is_etherpad session.condition.config.workspace_mode ≡ false
      → stored_revision session ≤ newest
      → All (IsOlder newest) earlier
      → All (IsOlder newest) later
      → checkpoint.revision ≡ some newest
      → get_last? checkpoint.ranking_history ≡ some last
      → let final = merge_all session (earlier ++ checkpoint ∷ later) in
        (final.checkpoint_revision ≡ some newest) × (final.ranking ≡ last)
  unfolding merge_all accepts_checkpoint_state
  newest_wins session earlier later checkpoint newest last plain start before behind versioned
        held =
      let mid = merge_all session earlier in
      let (below, same) = older_before newest session earlier before start in
      let next = merge_checkpoint_into_session mid checkpoint in
      let at : next.checkpoint_revision ≡ some newest =
        ground (arith, merge-revision mid checkpoint) in
      let shown : next.ranking ≡ last =
        merge_fresh mid checkpoint newest last (rw same plain) versioned below held in
      let (revision, ranking) = older_after newest next later behind at in
      rw (merge_all-append session earlier (checkpoint ∷ later)) (revision, ranking ∙ shown)
