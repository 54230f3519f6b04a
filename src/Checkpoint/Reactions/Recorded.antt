-- ===== src/Checkpoint/Reactions/Recorded.antt =====
-- The audit trail of reactions: no event is lost, and a redaction is never undone.
use gdm_platform.Common.{
  Text, Text-eq, List, [], ◌∷◌, map, Option, none, some, true, absorb, find_key, distinct, entry,
  get_last?, keep, find_key-values, map-key-values, absorb-IsKeyed, get-absorb, keys-absorb, ◌≡◌,
  refl, ap, ◌∙◌, ◌==◌, inl, inr, arith, Bool-cases, IsKeyed, add_distinct,
}
use gdm_platform.Shared.Models.{RecordedReaction}
use gdm_platform.Checkpoint.Keyed.Lookup.{merged, merged-IsKeyed, get-merged}
use gdm_platform.Checkpoint.Reactions.{combine_recorded, merge_recorded_reactions}

abbrev pub event : RecordedReaction → Text
event reaction = reaction.event_id

absorbed-IsKeyed :
    (existing incoming : List RecordedReaction)
    → IsKeyed event (absorb event (λ r. r) combine_recorded (merged event existing) incoming)
unfolding combine_recorded
absorbed-IsKeyed existing incoming =
    absorb-IsKeyed event (λ r. r) combine_recorded (λ x. refl) (λ c x p. refl)
      (merged event existing) incoming (merged-IsKeyed event existing)

abbrev IsRedacted : Option RecordedReaction → Type 0
IsRedacted none = ⊥
IsRedacted (some r) = r.redacted ≡ true

entry-IsRedacted :
    (j : Text) (o : Option RecordedReaction) (xs : List RecordedReaction)
    → IsRedacted o
    → IsRedacted (entry event (λ r. r) combine_recorded j o xs)
unfolding entry combine_recorded
entry-IsRedacted j o [] h = h
entry-IsRedacted j none (x ∷ xs) h = absurd h
entry-IsRedacted j (some c) (x ∷ xs) h = elim (Bool-cases (event x == j)) [
  | inl hit ↦ rw hit (entry-IsRedacted j (some (combine_recorded c x)) xs (ground arith))
  | inr miss ↦ rw miss (entry-IsRedacted j (some c) xs h)
]

pub find_key-merge_recorded :
    (existing incoming : List RecordedReaction) (j : Text)
    → find_key event j (merge_recorded_reactions existing incoming)
      ≡ entry event
          (λ r. r)
          combine_recorded
          j
          (get_last? (keep (λ r. event r == j) existing))
          incoming
unfolding merge_recorded_reactions merged
find_key-merge_recorded existing incoming j =
    find_key-values event j _ (absorbed-IsKeyed existing incoming)
    ∙ get-absorb event (λ r. r) combine_recorded j (merged event existing) incoming
    ∙ ap (λ o. entry event (λ r. r) combine_recorded j o incoming) (get-merged event j existing)

-- Each event is held once, in the order of first appearance.
pub map-merge_recorded :
    (existing incoming : List RecordedReaction)
    → map event (merge_recorded_reactions existing incoming)
      ≡ add_distinct (distinct (map event existing)) (map event incoming)
unfolding merge_recorded_reactions merged
map-merge_recorded existing incoming =
    map-key-values event _ (absorbed-IsKeyed existing incoming)
    ∙ keys-absorb event (λ r. r) combine_recorded (merged event existing) incoming
    ∙ ap (λ l. add_distinct l (map event incoming))
        (keys-absorb event (λ r. r) (λ c r. r) [] existing)

redacted_some :
    (o : Option RecordedReaction)
    → IsRedacted o
    → (r : RecordedReaction) × (o ≡ some r) × (r.redacted ≡ true)
redacted_some none h = absurd h
redacted_some (some r) h = (r, refl, h)

-- A stored reaction that was redacted is redacted after every merge, whatever the snapshot says.
pub redacted_stays :
    (existing incoming : List RecordedReaction) (j : Text) (r : RecordedReaction)
    → get_last? (keep (λ x. x.event_id == j) existing) ≡ some r
    → r.redacted ≡ true
    → (r' : RecordedReaction) × (find_key event j (merge_recorded_reactions existing incoming)
        ≡ some r')
      × (r'.redacted ≡ true)
redacted_stays existing incoming j r found red =
    let (r', at, redacted) = redacted_some _ (entry-IsRedacted j (some r) incoming red) in
    (
      r',
      find_key-merge_recorded existing incoming j
          ∙ ap (λ o. entry event (λ r. r) combine_recorded j o incoming) found
          ∙ at,
      redacted,
    )
