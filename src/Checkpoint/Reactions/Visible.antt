-- ===== src/Checkpoint/Reactions/Visible.antt =====
-- The merged chat log: which messages it holds, what of them may change, and which reactions show.
use gdm_platform.Common.{
  Text, Text-eq, List, [], ◌∷◌, ◌++◌, map, Option, none, some, true, false, ◌||◌, absorb, find_key,
  last_key, distinct, entry, All, contains, find_key-values, map-key-values, absorb-IsKeyed,
  get-absorb, keys-absorb, ◌≡◌, refl, sym, ap, ◌∙◌, ◌==◌, inl, inr, arith, Bool-cases, IsKeyed,
  meet, add_distinct,
}
use gdm_platform.Shared.Models.{Message, Reaction}
use gdm_platform.Checkpoint.Keyed.Lookup.{merged, merged-IsKeyed, get-merged}
use gdm_platform.Checkpoint.Reactions.{
  is_redacted, visible, append_reactions, fresh_message, combine_message, merge_messages,
  reaction_identity_key,
}

abbrev ident : Message → Text
ident message = message.id

module _ (redacted : List Text) where
  abbrev pub Shown : List Reaction → Type 0
  Shown reactions = All (λ r. is_redacted redacted r ≡ false) reactions

  Shown-snoc :
      (rs : List Reaction) (r : Reaction)
      → Shown rs
      → is_redacted redacted r ≡ false
      → Shown (rs ++ r ∷ [])
  Shown-snoc [] r h p = (p, tt)
  Shown-snoc (x ∷ rs) r h p = (h.0, Shown-snoc rs r h.1 p)

  visible-Shown : (rs : List Reaction) → Shown (visible redacted rs)
  unfolding visible
  visible-Shown [] = tt
  visible-Shown (r ∷ rs) = elim (Bool-cases (is_redacted redacted r)) [
    | inl hidden ↦ rw hidden (visible-Shown rs)
    | inr shown ↦ rw shown (shown, visible-Shown rs)
  ]

  append_reactions-Shown :
      (id : Text) (seen : List Text) (rs more : List Reaction)
      → Shown rs
      → Shown (append_reactions redacted id seen rs more)
  unfolding append_reactions
  append_reactions-Shown id seen rs [] h = h
  append_reactions-Shown id seen rs (r ∷ more) h =
      elim (Bool-cases (is_redacted redacted r || contains seen (reaction_identity_key id r))) [
        | inl skip ↦ rw skip (append_reactions-Shown id seen rs more h)
        | inr add ↦ rw add (
            append_reactions-Shown id (seen ++ reaction_identity_key id r ∷ []) (rs ++ r ∷ []) more
              (Shown-snoc rs r h (ground arith)))
      ]

  meet-Shown :
      (o : Option Message) (x : Message)
      → Shown (meet ident (fresh_message redacted) (combine_message redacted) o x).reactions
  unfolding fresh_message combine_message
  meet-Shown none x = visible-Shown x.reactions
  meet-Shown (some c) x =
      append_reactions-Shown x.id _ (visible redacted c.reactions) x.reactions
        (visible-Shown c.reactions)

  abbrev step : Text → Option Message → List Message → Option Message
  step j o xs = entry ident (fresh_message redacted) (combine_message redacted) j o xs

  abbrev ShownIn : Option Message → Type 0
  ShownIn none = Unit
  ShownIn (some m) = Shown m.reactions

  step-Shown :
      (j : Text) (o : Option Message) (xs : List Message) → ShownIn o → ShownIn (step j o xs)
  unfolding entry
  step-Shown j o [] h = h
  step-Shown j o (x ∷ xs) h = elim (Bool-cases (ident x == j)) [
    | inl hit ↦ rw hit (
        step-Shown j (some (meet ident (fresh_message redacted) (combine_message redacted) o x)) xs
          (meet-Shown o x))
    | inr miss ↦ rw miss (step-Shown j o xs h)
  ]

  -- A message that the snapshot names shows no redacted reaction.
  step-Shown_of_contains :
      (j : Text) (o : Option Message) (xs : List Message)
      → contains (map ident xs) j ≡ true
      → ShownIn (step j o xs)
  unfolding entry contains
  step-Shown_of_contains j o [] h = cc
  step-Shown_of_contains j o (x ∷ xs) h = elim (Bool-cases (ident x == j)) [
    | inl hit ↦ rw hit (
        step-Shown j (some (meet ident (fresh_message redacted) (combine_message redacted) o x)) xs
          (meet-Shown o x))
    | inr miss ↦ rw miss (step-Shown_of_contains j o xs (ground arith))
  ]

  -- The two messages differ at most in their reactions.
  abbrev pub SameBody : Message → Message → Type 0
  SameBody m m' = record m { reactions = [] } ≡ record m' { reactions = [] }

  abbrev Keeps : Message → Option Message → Type 0
  Keeps m none = ⊥
  Keeps m (some m') = SameBody m m'

  step-Keeps :
      (j : Text) (m c : Message) (xs : List Message) → SameBody m c → Keeps m (step j (some c) xs)
  unfolding entry combine_message
  step-Keeps j m c [] h = h
  step-Keeps j m c (x ∷ xs) h = elim (Bool-cases (ident x == j)) [
    | inl hit ↦ rw hit (step-Keeps j m (combine_message redacted c x) xs h)
    | inr miss ↦ rw miss (step-Keeps j m c xs h)
  ]

  messages-IsKeyed :
      (existing incoming : List Message)
      → IsKeyed ident (
          absorb ident
            (fresh_message redacted)
            (combine_message redacted)
            (merged ident existing)
            incoming)
  unfolding fresh_message combine_message
  messages-IsKeyed existing incoming =
      absorb-IsKeyed ident (fresh_message redacted) (combine_message redacted) (λ x. refl)
        (λ c x p. p) (merged ident existing) incoming (merged-IsKeyed ident existing)

  find_key-merge_messages :
      (existing incoming : List Message) (j : Text)
      → find_key ident j (merge_messages existing incoming redacted)
        ≡ step j (last_key ident j existing) incoming
  unfolding merge_messages merged
  find_key-merge_messages existing incoming j =
      find_key-values ident j _ (messages-IsKeyed existing incoming)
      ∙ get-absorb ident (fresh_message redacted) (combine_message redacted) j
          (merged ident existing) incoming
      ∙ ap (λ o. step j o incoming) (get-merged ident j existing)

  -- Each message is held once, in the order of first appearance.
  pub map-merge_messages :
      (existing incoming : List Message)
      → map (λ m. m.id) (merge_messages existing incoming redacted)
        ≡ add_distinct (distinct (map (λ m. m.id) existing)) (map (λ m. m.id) incoming)
  unfolding merge_messages merged
  map-merge_messages existing incoming =
      map-key-values ident _ (messages-IsKeyed existing incoming)
      ∙ keys-absorb ident (fresh_message redacted) (combine_message redacted)
          (merged ident existing) incoming
      ∙ ap (λ l. add_distinct l (map ident incoming))
          (keys-absorb ident (λ r. r) (λ c r. r) [] existing)

  Keeps-some :
      (m : Message) (o : Option Message)
      → Keeps m o
      → (m' : Message) × (o ≡ some m') × SameBody m m'
  Keeps-some m none h = absurd h
  Keeps-some m (some m') h = (m', refl, h)

  -- A stored message is still there, with its body as it was: only its reactions may change.
  pub message_kept :
      (existing incoming : List Message) (j : Text) (m : Message)
      → last_key (λ m. m.id) j existing ≡ some m
      → (m' : Message) × (find_key (λ m. m.id) j (merge_messages existing incoming redacted)
          ≡ some m')
        × SameBody m m'
  message_kept existing incoming j m found =
      let (m', at, same) = Keeps-some m _ (step-Keeps j m m incoming refl) in
      (
        m',
        find_key-merge_messages existing incoming j ∙ ap (λ o. step j o incoming) found ∙ at,
        same,
      )

  -- After the merge, a message that the snapshot names shows no reaction whose event is redacted.
  pub redacted_hidden :
      (existing incoming : List Message) (j : Text) (m : Message)
      → contains (map (λ m. m.id) incoming) j ≡ true
      → find_key (λ m. m.id) j (merge_messages existing incoming redacted) ≡ some m
      → All (λ r. is_redacted redacted r ≡ false) m.reactions
  redacted_hidden existing incoming j m named found =
      let at : step j (last_key ident j existing) incoming ≡ some m =
        sym (find_key-merge_messages existing incoming j) ∙ found in
      rw at at (step-Shown_of_contains j (last_key ident j existing) incoming named)
