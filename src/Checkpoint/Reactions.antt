-- ===== src/Checkpoint/Reactions.antt =====
-- checkpoint-merge.ts: `reactionKey`, `reactionIdentityKey`, `mergeRecordedReactions` and
-- `mergeMessages`.
pub mod Recorded
pub mod Visible
use gdm_platform.Common.{
  Text, Text-eq, text, List, [], ◌∷◌, ◌++◌, map, Option, none, some, Bool, true, false, not, ◌||◌,
  if◌then◌else◌, contains, keep, absorb, values, first_some,
}
use gdm_platform.Shared.Models.{Reaction, RecordedReaction, Message}
use gdm_platform.Checkpoint.Keyed.{set_all}
use gdm_platform.Checkpoint.Rankings.{truthy}

unfoldable pub reaction_key : Text → Text → Text → Text
reaction_key message_id key sender_id = message_id ++ (0 ∷ key ++ (0 ∷ sender_id))

unfoldable pub reaction_identity_key : Text → Reaction → Text
unfolding reaction_key
reaction_identity_key message_id reaction = elim (truthy reaction.event_id) [
  | some id ↦ text "event:" ++ id
  | none ↦ reaction_key message_id reaction.key reaction.sender_id
]

-- `reaction.eventId && redactedReactionEventIds.has(reaction.eventId)`.
unfoldable pub is_redacted : List Text → Reaction → Bool
unfolding contains
is_redacted redacted reaction = elim (truthy reaction.event_id) [
  | some id ↦ contains redacted id
  | none ↦ false
]

unfoldable pub visible : List Text → List Reaction → List Reaction
unfolding is_redacted
visible redacted = keep (λ reaction. not (is_redacted redacted reaction))

-- The loop over `message.reactions`, over `seenReactions` and `reactions`.
unfoldable pub append_reactions :
    List Text → Text → List Text → List Reaction → List Reaction → List Reaction
unfolding is_redacted reaction_identity_key
append_reactions redacted message_id seen reactions [] = reactions
append_reactions redacted message_id seen reactions (reaction ∷ rest) =
    let key = reaction_identity_key message_id reaction in
    let skip = is_redacted redacted reaction || contains seen key in
    append_reactions redacted message_id (if skip then seen else seen ++ key ∷ [])
      (if skip then reactions else reactions ++ reaction ∷ []) rest

unfoldable pub fresh_message : List Text → Message → Message
unfolding visible
fresh_message redacted message = record message { reactions = visible redacted message.reactions }

unfoldable pub combine_message : List Text → Message → Message → Message
unfolding visible append_reactions
combine_message redacted current message = record current {
  reactions =
      append_reactions redacted message.id (map (reaction_identity_key message.id) shown) shown
        message.reactions;
}
  where
    shown : List Reaction
    shown = visible redacted current.reactions

unfoldable pub merge_messages : List Message → List Message → List Text → List Message
unfolding fresh_message combine_message
merge_messages existing incoming redacted = values (
    absorb (λ m. m.id) (fresh_message redacted) (combine_message redacted)
      (set_all (λ m. m.id) [] existing) incoming)

unfoldable pub combine_recorded : RecordedReaction → RecordedReaction → RecordedReaction
combine_recorded current reaction = record reaction {
  redacted = current.redacted || reaction.redacted;
  redaction_event_id = first_some reaction.redaction_event_id current.redaction_event_id;
  redacted_at = first_some reaction.redacted_at current.redacted_at;
}

unfoldable pub merge_recorded_reactions :
    List RecordedReaction → List RecordedReaction → List RecordedReaction
unfolding combine_recorded
merge_recorded_reactions existing incoming = values (
    absorb (λ r. r.event_id) (λ r. r) combine_recorded (set_all (λ r. r.event_id) [] existing)
      incoming)
