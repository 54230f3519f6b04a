-- ===== src/Chat/Split.antt =====
-- rules/bot-rules.ts: `contributionSplit`, the share of each participant in one window.
pub mod Tally
use Prim.Native.Nat.{ℕ, ◌+◌}
use gdm_platform.Common.{
  Text, Text-eq, List, [], ◌∷◌, ◌++◌, map, Option, none, some, Bool, true, false, ◌||◌, ◌&&◌, not,
  leb, if◌then◌else◌, JsMap, get, put, or_else, length,
}
use gdm_platform.Shared.Timestamp.{Timestamp}
use gdm_platform.Shared.Number.{Number, lt, minutes_ms, zero_number}
use gdm_platform.Shared.Interventions.{InterventionConfig, ContributionShare, LlmMode}
use gdm_platform.Shared.Models.{Message, ContributionClassification}
use gdm_platform.Shared.Words.{count_words}
use gdm_platform.Shared.Identity.{Identity, build_identities, identity_for}
use gdm_platform.Checkpoint.Keyed.{set_all}

pub record Stats (N : Type 0) : Type 0 where
  pub message_count : ℕ
  pub word_count : ℕ
  pub invitation_count : ℕ
  pub meaningfulness : List N

abbrev pub is_active_mode : LlmMode → Bool
is_active_mode LlmMode.active = true
is_active_mode LlmMode.off = false

module _ {N : Type 0} ⦃n : Number N⦄ where
  abbrev pub no_stats : Stats N
  no_stats = record { message_count = 0; word_count = 0; invitation_count = 0; meaningfulness = [] }

  -- The two `continue`s on a message's time: outside the window, or wiped by the last nudge. A
  -- message whose time does not parse passes.
  unfoldable pub in_window : (cutoff reset : N) → ℕ → Timestamp → Bool
  in_window cutoff reset now_ms timestamp = elim timestamp.time [
    | none ↦ true
    | some ms ↦ not (lt (n.of_ℕ ms) cutoff || not (leb ms now_ms)) && not (n.le (n.of_ℕ ms) reset)
  ]

  abbrev pub invites : LlmMode → Option (ContributionClassification N) → Bool
  invites mode none = false
  invites mode (some c) = is_active_mode mode && c.invites_participation.value

  abbrev pub scores_of : Option (ContributionClassification N) → List N
  scores_of none = []
  scores_of (some c) = c.meaningfulness_score ∷ []

  -- What one message inside the window adds to its sender's statistics.
  unfoldable pub count_message :
      LlmMode → Option (ContributionClassification N) → Message → Stats N → Stats N
  count_message mode classification message stats =
      if invites mode classification
      then record stats { invitation_count = stats.invitation_count + 1 }
      else record stats {
        message_count = stats.message_count + 1;
        word_count = stats.word_count + count_words message.text;
        meaningfulness = stats.meaningfulness ++ scores_of classification;
      }

  module _ (mode : LlmMode) (cutoff reset : N) (now_ms : ℕ)
      (by_message : JsMap Text (ContributionClassification N)) where
    unfoldable pub tally : JsMap Text (Stats N) → List Message → JsMap Text (Stats N)
    unfolding in_window count_message
    tally by_user [] = by_user
    tally by_user (message ∷ messages) = tally (one (get message.sender_id by_user)) messages
      where
        one : Option (Stats N) → JsMap Text (Stats N)
        one none = by_user
        one (some stats) =
            if in_window cutoff reset now_ms message.timestamp
            then put message.sender_id
                (count_message mode (get message.id by_message) message stats) by_user
            else by_user

  unfoldable pub sum_from : N → List N → N
  sum_from total [] = total
  sum_from total (x ∷ xs) = sum_from (n.add total x) xs

  unfoldable pub mean : List N → N
  unfolding sum_from
  mean [] = zero_number
  mean (x ∷ xs) = n.div (sum_from zero_number (x ∷ xs)) (n.of_ℕ (length (x ∷ xs)))

  -- The first pass over the participants: the score, with no share yet.
  unfoldable pub score_entry :
      InterventionConfig N → JsMap Text Identity → JsMap Text (Stats N) → Text → ContributionShare N
  unfolding mean
  score_entry config identities by_user user_id = record {
    user_id = user_id;
    identity_name = (identity_for identities user_id).name;
    message_count = stats.message_count;
    word_count = stats.word_count;
    invitation_count = some stats.invitation_count;
    score =
        n.add (n.mul (n.of_ℕ stats.message_count) config.score_weights.messages)
          (n.mul (n.of_ℕ stats.word_count) config.score_weights.words);
    share = zero_number;
    meaningfulness_score = mean stats.meaningfulness;
    dominance_score = zero_number;
  }
    where
      stats : Stats N
      stats = or_else (get user_id by_user) no_stats

  -- The second pass: the share of the total score and the dominance.
  unfoldable pub with_share :
      InterventionConfig N → LlmMode → N → ContributionShare N → ContributionShare N
  with_share config mode total entry = record entry {
    share = share;
    dominance_score =
        if is_active_mode mode
        then n.add (n.mul config.dominance_weights.share share)
            (n.mul config.dominance_weights.meaningfulness entry.meaningfulness_score)
        else share;
  }
    where
      share : N
      share = if lt zero_number total then n.div entry.score total else zero_number

  -- `new Map(participantIds.map((id) => [id, …]))`.
  unfoldable pub empty_tally : List Text → JsMap Text (Stats N) → JsMap Text (Stats N)
  empty_tally [] by_user = by_user
  empty_tally (id ∷ ids) by_user = empty_tally ids (put id no_stats by_user)

  unfoldable pub contribution_split :
      List Message
      → List (ContributionClassification N)
      → List Text
      → InterventionConfig N
      → (now_ms : ℕ) → LlmMode
      → (reset : N) → (roster : List Text) → List (ContributionShare N)
  unfolding tally score_entry with_share empty_tally sum_from
  contribution_split messages classifications participant_ids config now_ms mode reset roster =
      map (with_share config mode total) scores
    where
      cutoff : N
      cutoff = n.sub (n.of_ℕ now_ms) (minutes_ms config.contribution_window_minutes)

      by_user : JsMap Text (Stats N)
      by_user =
          tally mode cutoff reset now_ms (set_all (λ c. c.message_id) [] classifications)
            (empty_tally participant_ids []) messages

      scores : List (ContributionShare N)
      scores = map (score_entry config (build_identities roster) by_user) participant_ids

      total : N
      total = sum_from zero_number (map (λ entry. entry.score) scores)
