-- ===== src/Shared/Identity.antt =====
-- packages/shared/src/identity.ts: the anonymous names of a room's members.
use Prim.Native.Nat.{ℕ, ◌+◌, ◌%◌}
use gdm_platform.Common.{
  Text, Text-eq, text_eq, text, List, [], ◌∷◌, Bool, ◌||◌, ◌&&◌, not, leb, if◌then◌else◌, keep,
  sort, text_le, JsMap, put, get, or_else, get_or, ◌≡◌, refl,
}
use gdm_platform.Shared.Interventions.{starts_with}

pub record Identity : Type 0 where
  pub name : Text
  pub color : Text

abbrev pub fallback_identity : Identity
fallback_identity = record { name = text "Gray"; color = text "#868e96" }

abbrev pub participant_palette : List Identity
participant_palette =
    record { name = text "Red"; color = text "#e03131" }
    ∷ record { name = text "Blue"; color = text "#1c7ed6" }
    ∷ record { name = text "Green"; color = text "#2f9e44" }
    ∷ record { name = text "Yellow"; color = text "#f08c00" }
    ∷ record { name = text "Purple"; color = text "#7048e8" }
    ∷ record { name = text "Teal"; color = text "#0ca678" }
    ∷ record { name = text "Pink"; color = text "#d6336c" }
    ∷ record { name = text "Cyan"; color = text "#1098ad" }
    ∷ record { name = text "Magenta"; color = text "#ae3ec9" }
    ∷ record { name = text "Gray"; color = text "#868e96" }
    ∷ []

-- The `i` flag: letters are compared in lower case.
abbrev lower : ℕ → ℕ
lower c = if leb 65 c && leb c 90 then c + 32 else c

lowered : Text → Text
lowered [] = []
lowered (c ∷ s) = lower c ∷ lowered s

-- The pattern stands somewhere in the text.
has_part : Text → Text → Bool
unfolding starts_with
has_part part [] = starts_with [] part
has_part part (c ∷ s) = starts_with (c ∷ s) part || has_part part s

unfoldable pub is_bot : Text → Bool
unfolding has_part lowered
is_bot user_id =
    has_part (text "_bot:") (lowered user_id) || has_part (text "_bot_") (lowered user_id)

unfoldable pub is_service_user : Text → Bool
unfolding is_bot
is_service_user user_id = has_part (text "orchestrator") (lowered user_id) || is_bot user_id

-- The loop over the sorted members, from the position `i`.
assign : ℕ → List Text → JsMap Text Identity → JsMap Text Identity
assign i [] identities = identities
assign i (id ∷ ids) identities =
    assign (i + 1) ids (put id (get_or participant_palette (i % 10) fallback_identity) identities)

unfoldable pub build_identities : List Text → JsMap Text Identity
unfolding assign is_service_user sort text_le put
build_identities member_ids =
    assign 0 (sort text_le (keep (λ id. not (is_service_user id)) member_ids)) []

unfoldable pub identity_for : JsMap Text Identity → Text → Identity
unfolding get
identity_for identities user_id = or_else (get user_id identities) fallback_identity

identity_test :
    (identity_for
      (build_identities (text "@b:x" ∷ text "@study_Bot:x" ∷ text "@a:x" ∷ []))
      (text "@b:x")).name
    ≡ text "Blue"
unfolding identity_for build_identities text_eq
identity_test = refl
