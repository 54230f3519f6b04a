-- ===== src/Shared/Words.antt =====
-- packages/shared/src/text.ts: the word count that the live split and the exports share, and the
-- prefix of test conditions.
use Prim.Native.Nat.{ℕ, suc, ◌+◌}
use gdm_platform.Common.{
  Text, text, List, length, keep, Bool-cases, inl, inr, ap, sym, ◌∙◌, [], ◌∷◌, ◌++◌, Bool, true,
  false, ◌||◌, ◌&&◌, not, leb, nat_eq, if◌then◌else◌, ◌≡◌, refl, arith,
}
use mathlib.Core.List.{reverse, reverse-cons, reverse-reverse}
use gdm_platform.Shared.Interventions.{starts_with}

-- The code units that `\s` and `trim` take for white space.
unfoldable pub is_space : ℕ → Bool
is_space c =
    (leb 9 c && leb c 13)
    || nat_eq c 32
    || nat_eq c 160
    || nat_eq c 5760
    || (leb 8192 c && leb c 8202)
    || nat_eq c 8232
    || nat_eq c 8233
    || nat_eq c 8239
    || nat_eq c 8287
    || nat_eq c 12288
    || nat_eq c 65279

drop_spaces : Text → Text
unfolding is_space
drop_spaces [] = []
drop_spaces (c ∷ s) = if is_space c then drop_spaces s else c ∷ s

-- `s.trim()`.
unfoldable pub trim : Text → Text
unfolding drop_spaces
trim s = reverse (drop_spaces (reverse (drop_spaces s)))

starts_with_space : Text → Bool
unfolding is_space
starts_with_space [] = false
starts_with_space (c ∷ _) = is_space c

-- A character before the first of the pieces.
before_first : ℕ → List Text → List Text
before_first c [] = (c ∷ []) ∷ []
before_first c (word ∷ words) = (c ∷ word) ∷ words

-- `s.split(/\s+/)`: a run of white space separates, at its last character.
unfoldable pub split_spaces : Text → List Text
unfolding is_space starts_with_space before_first
split_spaces [] = [] ∷ []
split_spaces (c ∷ s) =
    let rest = split_spaces s in
    if is_space c then (if starts_with_space s then rest else [] ∷ rest) else before_first c rest

-- `Boolean` of a string.
abbrev pub is_word : Text → Bool
is_word [] = false
is_word (_ ∷ _) = true

-- `text.trim().split(/\s+/).filter(Boolean).length`.
unfoldable pub count_words : Text → ℕ
unfolding trim split_spaces
count_words s = length (keep is_word (split_spaces (trim s)))

-- The words that begin in the text, if `inside` says whether a word reaches into it.
words_from : Bool → Text → ℕ
unfolding is_space
words_from inside [] = 0
words_from inside (c ∷ s) =
    let rest = words_from (not (is_space c)) s in if inside || is_space c then rest else suc rest

words_after_space : (s : Text) → starts_with_space s ≡ true → words_from true s ≡ words_from false s
unfolding words_from starts_with_space
words_after_space [] h = cc
words_after_space (c ∷ s) h = ground (arith, h)

abbrev later_words : List Text → ℕ
later_words [] = 0
later_words (_ ∷ words) = length (keep is_word words)

split_spaces-words :
    (s : Text)
    → (length (keep is_word (split_spaces s)) ≡ words_from false s)
      × (later_words (split_spaces s) ≡ words_from true s)
unfolding split_spaces words_from
split_spaces-words [] = (refl, refl)
split_spaces-words (c ∷ s) =
    let (all, later) = split_spaces-words s in
    elim (Bool-cases (is_space c)) [
      | inl space ↦ elim (Bool-cases (starts_with_space s)) [
        | inl run ↦
            rw (space, split_spaces, words_from) (rw run (all, later ∙ words_after_space s run))
        | inr last ↦ rw (space, split_spaces, words_from) (rw last (all, all))
      ]
      | inr letter ↦
          rw (letter, split_spaces, words_from)
            (let (one, more) = before_first-words c (split_spaces s) in
              (one ∙ ap suc later, more ∙ later))
    ]
  where
    before_first-words :
        (d : ℕ) (words : List Text)
        → (length (keep is_word (before_first d words)) ≡ suc (later_words words))
          × (later_words (before_first d words) ≡ later_words words)
    before_first-words d [] = (refl, refl)
    before_first-words d (word ∷ words) = (refl, refl)

words_from-append_space :
    (inside : Bool) (s : Text) (c : ℕ) (t : Text)
    → is_space c ≡ true
    → words_from inside (s ++ c ∷ t) ≡ words_from inside s + words_from false t
unfolding words_from
words_from-append_space inside [] c t h = ground (arith, h)
words_from-append_space inside (d ∷ s) c t h =
    ground (arith, words_from-append_space (not (is_space d)) s c t h)

words_from-drop_spaces : (s : Text) → words_from false (drop_spaces s) ≡ words_from false s
unfolding drop_spaces words_from
words_from-drop_spaces [] = refl
words_from-drop_spaces (c ∷ s) = ground (arith, words_from-drop_spaces s)

-- White space at the end adds no word.
reverse-drop_spaces :
    (s : Text) → words_from false (reverse (drop_spaces s)) ≡ words_from false (reverse s)
unfolding drop_spaces words_from
reverse-drop_spaces [] = refl
reverse-drop_spaces (c ∷ s) = elim (Bool-cases (is_space c)) [
  | inr letter ↦ rw (letter, drop_spaces) refl
  | inl space ↦
      rw (space, drop_spaces)
        (let appended = words_from-append_space false (reverse s) c [] space in
          reverse-drop_spaces s
          ∙ sym (ap (words_from false) (reverse-cons c s) ∙ appended ∙ omega arith))
]

-- Trimming and splitting count the beginnings of words.
count_words-words_from : (s : Text) → count_words s ≡ words_from false s
unfolding count_words trim
count_words-words_from s =
    (split_spaces-words (trim s)).0
    ∙ reverse-drop_spaces (reverse (drop_spaces s))
    ∙ ap (words_from false) (reverse-reverse (drop_spaces s))
    ∙ words_from-drop_spaces s

-- White space separates words: the count of two texts with a white-space character between them
-- is the sum of their counts.
pub count_words-append_space :
    (s : Text) (c : ℕ) (t : Text)
    → is_space c ≡ true
    → count_words (s ++ c ∷ t) ≡ count_words s + count_words t
count_words-append_space s c t h =
    rw (count_words-words_from (s ++ c ∷ t), count_words-words_from s, count_words-words_from t)
      (words_from-append_space false s c t h)

-- `isTestCondition`.
unfoldable pub is_test_condition : Text → Bool
unfolding starts_with
is_test_condition condition_id = starts_with condition_id (text "e2e-")

count_words_tests : (count_words (text "  hello, big   world ") ≡ 3) × (count_words (text "") ≡ 0)
unfolding count_words
count_words_tests = (refl, refl)

trim_test : trim (text "  a b ") ≡ text "a b"
unfolding trim
trim_test = refl
