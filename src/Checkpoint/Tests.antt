-- ===== src/Checkpoint/Tests.antt =====
-- The checkpoint merge on concrete sessions.
use Prim.Native.Nat.{ℕ}
use gdm_platform.Common.{
  Text, text, text_eq, Text-eq, List, [], ◌∷◌, map, none, some, true, false, find_key, absorb, put,
  get, contains, distinct, All, ◌≡◌, refl, arith, ◌≤◌,
}
use gdm_platform.Shared.Models.{Message, RecordedReaction}
use gdm_platform.Shared.Interventions.{WindowEvaluation}
use gdm_platform.Checkpoint.Reactions.{is_redacted, merge_messages, merge_recorded_reactions}
use gdm_platform.Checkpoint.Reactions.Recorded.{redacted_stays, event}
use gdm_platform.Checkpoint.Reactions.Visible.{message_kept, redacted_hidden, SameBody}
use gdm_platform.Checkpoint.Windows.{boundary, dedupe_window_evaluations}
use gdm_platform.Checkpoint.Windows.Best.{dedupe-IsBest, IsBest}
use gdm_platform.Checkpoint.Merge.{merge_checkpoint_into_session}
use gdm_platform.Checkpoint.Merge.Retention.{Retains, merge-Retains}
use gdm_platform.Checkpoint.Merge.Staleness.{
  KeepsState, merge_all, stored_revision, newest_wins, stale-KeepsState, stored_revision-le,
}
use gdm_platform.Checkpoint.Samples.{
  session, snapshot, ranking, message, reaction, recorded, evaluation,
}

-- Two records of one boundary, of which the second is linked to an intervention.
abbrev two : List (WindowEvaluation ℕ)
two = evaluation (text "w1") none ∷ evaluation (text "w2") (some (text "i1")) ∷ []

newest_wins_example :
    ((merge_all session (
        snapshot 3 (text "milk")
        ∷ snapshot 5 (text "oxygen")
        ∷ snapshot 4 (text "rope")
        ∷ [])).checkpoint_revision
      ≡ some 5)
    × ((merge_all session (
          snapshot 3 (text "milk")
          ∷ snapshot 5 (text "oxygen")
          ∷ snapshot 4 (text "rope")
          ∷ [])).ranking
        ≡ ranking (text "oxygen"))
newest_wins_example =
    newest_wins session (snapshot 3 (text "milk") ∷ []) (snapshot 4 (text "rope") ∷ [])
      (snapshot 5 (text "oxygen")) 5 (ranking (text "oxygen")) refl (ground arith)
      (ground arith, tt) (ground arith, tt) refl refl

stale-KeepsState_example :
    KeepsState session (merge_checkpoint_into_session session (snapshot 1 (text "milk")))
stale-KeepsState_example = stale-KeepsState session (snapshot 1 (text "milk")) 1 refl (ground arith)

stored_revision-le_example :
    stored_revision session
    ≤ stored_revision (merge_checkpoint_into_session session (snapshot 3 (text "milk")))
stored_revision-le_example = stored_revision-le session (snapshot 3 (text "milk"))

merge-Retains_example :
    Retains session (merge_checkpoint_into_session session (snapshot 1 (text "milk")))
merge-Retains_example = merge-Retains session (snapshot 1 (text "milk"))

redacted_stays_example :
    (r : RecordedReaction) × (find_key event
        (text "r1")
        (merge_recorded_reactions (recorded true ∷ []) (recorded false ∷ []))
      ≡ some r)
    × (r.redacted ≡ true)
unfolding text_eq
redacted_stays_example =
    redacted_stays (recorded true ∷ []) (recorded false ∷ []) (text "r1") (recorded true) refl refl

message_kept_example :
    (m : Message) × (find_key
        (λ m. m.id)
        (text "m1")
        (merge_messages session.chat.messages (message (text "m1") [] ∷ []) (text "r1" ∷ []))
      ≡ some m)
    × SameBody (text "r1" ∷ []) (message (text "m1") (reaction ∷ [])) m
unfolding text_eq
message_kept_example =
    message_kept (text "r1" ∷ []) session.chat.messages (message (text "m1") [] ∷ []) (text "m1")
      (message (text "m1") (reaction ∷ [])) refl

redacted_hidden_example : All (λ r. is_redacted (text "r1" ∷ []) r ≡ false) []
unfolding text_eq contains merge_messages absorb put get
redacted_hidden_example =
    redacted_hidden (text "r1" ∷ []) session.chat.messages
      (message (text "m1") (reaction ∷ []) ∷ []) (text "m1") (message (text "m1") []) refl refl

dedupe-IsBest_example :
    (map boundary (dedupe_window_evaluations two) ≡ distinct (map boundary two))
    × ((j : Text) (e : WindowEvaluation ℕ)
        → find_key boundary j (dedupe_window_evaluations two) ≡ some e
        → IsBest j two e)
dedupe-IsBest_example = dedupe-IsBest two
