-- ===== src/Checkpoint/Keyed/Lookup.antt =====
-- What the keyed merges hold: which keys, in which order, and which value under each.
use mathlib.Core.List.{map-append}
use gdm_platform.Common.{
  Text, List, [], ◌∷◌, ◌++◌, map, Bool, true, false, ◌||◌, contains, values, JsMap, entry, find_key,
  last_key, keep, get_last?, find, distinct, get, IsKeyed, Option, some, none, find_key-values,
  map-key-values, absorb-IsKeyed, get-absorb, keys-absorb, absorb-append, first_some, ◌≡◌, refl,
  sym, ap, ◌∙◌, ◌==◌, arith, contains-append, contains-add_distinct, Bool-cases, inl, inr,
  text_eq_iff, contains-map, is_some, Text-eq,
}
use gdm_platform.Checkpoint.Keyed.{
  append_fresh, append_unique, set_all, merge_by_key, merge_checkpoint_values,
}

module _ {ℓ} {T : Type ℓ} (key : T → Text) where
  abbrev or_last : Option T → List T → Option T
  or_last o [] = o
  or_last o (x ∷ xs) = get_last? (x ∷ xs)

  or_last-some : (x : T) (o : Option T) (xs : List T) → or_last (some x) xs ≡ or_last o (x ∷ xs)
  or_last-some x o [] = refl
  or_last-some x o (y ∷ xs) = refl

  entry-last :
      (j : Text) (o : Option T) (xs : List T)
      → entry key (λ item. item) (λ current item. item) j o xs
        ≡ or_last o (keep (λ x. key x == j) xs)
  unfolding entry
  entry-last j o [] = refl
  entry-last j none (x ∷ xs) = elim (Bool-cases (key x == j)) [
    | inl hit ↦ rw (hit, entry-last j (some x) xs) (or_last-some x none (keep (λ x. key x == j) xs))
    | inr miss ↦ rw (miss, entry-last j none xs)
  ]
  entry-last j (some c) (x ∷ xs) = elim (Bool-cases (key x == j)) [
    | inl hit ↦
        rw (hit, entry-last j (some x) xs) (or_last-some x (some c) (keep (λ x. key x == j) xs))
    | inr miss ↦ rw (miss, entry-last j (some c) xs)
  ]

  get-set_all :
      (j : Text) (m : JsMap Text T) (xs : List T)
      → get j (set_all key m xs) ≡ or_last (get j m) (keep (λ x. key x == j) xs)
  get-set_all j m xs =
      get-absorb key (λ item. item) (λ current item. item) j m xs ∙ entry-last j (get j m) xs

  set_all-IsKeyed :
      (m : JsMap Text T) (xs : List T) → IsKeyed key m → IsKeyed key (set_all key m xs)
  set_all-IsKeyed =
      absorb-IsKeyed key (λ item. item) (λ current item. item) (λ x. refl) (λ c x p. refl)

  unfoldable pub merged : List T → JsMap Text T
  merged items = set_all key [] items

  pub merged-IsKeyed : (items : List T) → IsKeyed key (merged items)
  unfolding merged
  merged-IsKeyed items = set_all-IsKeyed [] items tt

  -- The two loops of `mergeByKey` are one loop over both arrays.
  merge_by_key-merged :
      (existing incoming : List T)
      → merge_by_key key existing incoming ≡ values (merged (existing ++ incoming))
  unfolding merge_by_key merged
  merge_by_key-merged existing incoming =
      ap values (sym (absorb-append key (λ item. item) (λ current item. item) [] existing incoming))

  or_last-none : (xs : List T) → or_last none xs ≡ get_last? xs
  or_last-none [] = refl
  or_last-none (x ∷ xs) = refl

  pub get-merged : (j : Text) (items : List T) → get j (merged items) ≡ last_key key j items
  unfolding merged get
  get-merged j items = get-set_all j [] items ∙ or_last-none (keep (λ x. key x == j) items)

  -- The value under a key is the last one given for it.
  pub find_key-merge_by_key :
      (existing incoming : List T) (j : Text)
      → find_key key j (merge_by_key key existing incoming) ≡ last_key key j (existing ++ incoming)
  unfolding merged get
  find_key-merge_by_key existing incoming j =
      let items = existing ++ incoming in
      ap (find_key key j) (merge_by_key-merged existing incoming)
      ∙ find_key-values key j (merged items) (merged-IsKeyed items)
      ∙ get-merged j items

  -- Each key is held once, in the order of first appearance.
  pub map-merge_by_key :
      (existing incoming : List T)
      → map key (merge_by_key key existing incoming) ≡ distinct (map key (existing ++ incoming))
  unfolding merged
  map-merge_by_key existing incoming =
      let items = existing ++ incoming in
      ap (map key) (merge_by_key-merged existing incoming)
      ∙ map-key-values key (merged items) (merged-IsKeyed items)
      ∙ keys-absorb key (λ item. item) (λ current item. item) [] items

  find-append :
      (p : T → Bool) (xs ys : List T) → find p (xs ++ ys) ≡ first_some (find p xs) (find p ys)
  find-append p [] ys = refl
  find-append p (x ∷ xs) ys = ground (arith, find-append p xs ys)

  append_fresh_cases :
      (j : Text) (seen : List Text) (appended items : List T)
      → contains seen j ≡ is_some (find_key key j appended)
      → find_key key j (append_fresh key seen appended items)
        ≡ first_some (find_key key j appended) (find_key key j items)
  unfolding append_fresh contains
  append_fresh_cases j seen appended [] h = ground arith
  append_fresh_cases j seen appended (item ∷ items) h =
      elim (Bool-cases (contains seen (key item))) [
        | inl old ↦ rw old (
            ground
              (arith, append_fresh_cases j seen appended items h, old, text_eq_iff (key item) j))
        | inr new ↦ rw new (
            append_fresh_cases j (seen ++ key item ∷ []) (appended ++ item ∷ []) items (
              ground (
                arith,
                contains-append seen (key item ∷ []) j,
                find-append (λ x. key x == j) appended (item ∷ []),
              ))
            ∙ ground (arith, find-append (λ x. key x == j) appended (item ∷ [])))
      ]

  -- `appendUnique` keeps the first value given for a key.
  pub find_key-append_unique :
      (existing incoming : List T) (j : Text)
      → find_key key j (append_unique key existing incoming) ≡ find_key key j (existing ++ incoming)
  unfolding append_unique
  find_key-append_unique existing incoming j =
      append_fresh_cases j (map key existing) existing incoming (contains-map key j existing)
      ∙ sym (find-append (λ x. key x == j) existing incoming)

  -- Every key of either array is held, and no other.
  pub contains-merge_checkpoint_values :
      (existing incoming : List T) (accepts : Bool) (j : Text)
      → contains (map key (merge_checkpoint_values key existing incoming accepts)) j
        ≡ (contains (map key existing) j || contains (map key incoming) j)
  unfolding merge_checkpoint_values contains
  contains-merge_checkpoint_values existing incoming true j =
      ap (λ l. contains l j) (map-merge_by_key existing incoming)
      ∙ contains-add_distinct [] (map key (existing ++ incoming)) j
      ∙ ap (λ l. contains l j) (map-append key existing incoming)
      ∙ contains-append (map key existing) (map key incoming) j
  contains-merge_checkpoint_values existing incoming false j = ground (
    arith,
    contains-map key j (append_unique key existing incoming),
    contains-map key j existing,
    contains-map key j incoming,
    find_key-append_unique existing incoming j,
    find-append (λ x. key x == j) existing incoming,
  )

  -- A stale snapshot changes no value that is there.
  pub merge_checkpoint_values-stale :
      (existing incoming : List T) (j : Text) (v : T)
      → find_key key j existing ≡ some v
      → find_key key j (merge_checkpoint_values key existing incoming false) ≡ some v
  unfolding merge_checkpoint_values
  merge_checkpoint_values-stale existing incoming j v found =
      find_key-append_unique existing incoming j
      ∙ find-append (λ x. key x == j) existing incoming
      ∙ rw found
