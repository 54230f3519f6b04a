-- ===== src/Shared/Tasks.antt =====
-- packages/shared/src/tasks.ts: the exercise that every session discusses.
use gdm_platform.Common.{text, [], ◌∷◌, ◌++◌, Text}
use gdm_platform.Shared.Models.{Briefing, RankingItem, RankingTask}

abbrev pub moon_survival_briefing : Briefing
moon_survival_briefing = record {
  title = text "Task: Survival on the Moon";
  html =
      text "<p>As part of a space crew, you are ready to land on the lighted surface "
      ++ text "of the moon where you planned to meet up with the mothership. Due to "
      ++ text "mechanical problems, your ship was forced to crash-land about 200 miles "
      ++ text "(320 km) from the calculated location. Much of the onboard equipment "
      ++ text "was damaged. Your survival depends on reaching the mothership, so you "
      ++ text "must choose the most critical items for the journey.</p>";
}

item : Text → Text → RankingItem
item id label = record { id = id; label = label }

unfoldable pub moon_survival : RankingTask
unfolding item
moon_survival = record {
  id = text "moon-survival";
  title =
      text "Rank the items below by importance for reaching the mothership. "
      ++ text "Most important item = 1, least important item = 10.";
  items =
      item (text "matches") (text "Box of matches")
      ∷ item (text "food") (text "Food concentrate")
      ∷ item (text "parachute") (text "Parachute silk")
      ∷ item (text "heater") (text "Portable heating unit")
      ∷ item (text "pistols") (text "Two .45 caliber pistols")
      ∷ item (text "oxygen") (text "Two 100-lb tanks of oxygen")
      ∷ item (text "map") (text "Stellar map")
      ∷ item (text "raft") (text "Life raft")
      ∷ item (text "compass") (text "Magnetic compass")
      ∷ item (text "firstaid") (text "First aid kit with injection needles")
      ∷ [];
}
