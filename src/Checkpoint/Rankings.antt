-- ===== src/Checkpoint/Rankings.antt =====
-- checkpoint-merge.ts: `rankingKey` and `newestRanking`.
use Prim.Native.Nat.{ℕ}
use gdm_platform.Common.{
  Text, text, List, [], ◌∷◌, ◌++◌, Option, none, some, leb, if◌then◌else◌, Bool,
}
use gdm_platform.Shared.Timestamp.{decimal}
use gdm_platform.Shared.Models.{Ranking, Movement}

-- An id that is present and not the empty string, as the tests `if (x.eventId)` ask.
abbrev pub truthy : Option Text → Option Text
truthy none = none
truthy (some []) = none
truthy (some (c ∷ s)) = some (c ∷ s)

-- `parts.join(separator)`.
unfoldable pub join : Text → List Text → Text
join separator [] = []
join separator (part ∷ []) = part
join separator (part ∷ next ∷ parts) = part ++ (separator ++ join separator (next ∷ parts))

unfoldable pub movement_text : Option Movement → Text
movement_text none = []
movement_text (some m) = m.item_id ++ (text ":" ++ (decimal m.from ++ (text ":" ++ decimal m.to)))

unfoldable pub ranking_key : Ranking → Text
unfolding join movement_text
ranking_key ranking = elim (truthy ranking.event_id) [
  | some id ↦ text "event:" ++ id
  | none ↦ join (0 ∷ []) (
      ranking.task_id
      ∷ ranking.updated_at.text
      ∷ ranking.updated_by
      ∷ join (1 ∷ []) ranking.order
      ∷ movement_text ranking.movement
      ∷ [])
]

-- One round of the `reduce` of `newestRanking`, by the parsed times of the two rankings.
unfoldable pub newer : Option ℕ → Option ℕ → Bool
newer latest none = Bool.false
newer none (some candidate) = Bool.true
newer (some latest) (some candidate) = leb latest candidate

unfoldable pub newest_ranking : Ranking → List Ranking → Ranking
unfolding newer
newest_ranking latest [] = latest
newest_ranking latest (candidate ∷ rest) =
    newest_ranking
      (if newer latest.updated_at.time candidate.updated_at.time then candidate else latest) rest
