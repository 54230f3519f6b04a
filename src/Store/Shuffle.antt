-- ===== src/Store/Shuffle.antt =====
-- store/forming-session.ts: `shuffleRankingOrder`, with the random choices as a parameter.
pub mod Fair
use Prim.Native.Nat.{ℕ, zero, suc, ◌-◌}
use gdm_platform.Common.{List, [], ◌∷◌, Option, none, some, length, map}

module _ {ℓ} {A : Type ℓ} where
  abbrev pub get_elem? : List A → ℕ → Option A
  get_elem? [] i = none
  get_elem? (x ∷ xs) zero = some x
  get_elem? (x ∷ xs) (suc i) = get_elem? xs i

  -- An array of values of which some may be `undefined`.
  abbrev pub read : List (Option A) → ℕ → Option A
  read [] i = none
  read (x ∷ xs) zero = x
  read (x ∷ xs) (suc i) = read xs i

  -- `xs[i] = v`, which makes the array longer where it ends before `i`.
  abbrev pub write : List (Option A) → ℕ → Option A → List (Option A)
  write [] zero v = v ∷ []
  write [] (suc i) v = none ∷ write [] i v
  write (x ∷ xs) zero v = v ∷ xs
  write (x ∷ xs) (suc i) v = x ∷ write xs i v

  -- `[xs[i], xs[j]] = [xs[j], xs[i]]`.
  unfoldable pub swap : ℕ → ℕ → List (Option A) → List (Option A)
  swap i j xs = write (write xs i (read xs j)) j (read xs i)

  -- The loop, from an index down to 1. `pickIndex` is called with each bound once, so that what it
  -- answers is a function of the bound.
  unfoldable pub shuffle_from : (ℕ → ℕ) → ℕ → List (Option A) → List (Option A)
  unfolding swap
  shuffle_from pick_index zero xs = xs
  shuffle_from pick_index (suc i) xs =
      shuffle_from pick_index i (swap (suc i) (pick_index (suc (suc i))) xs)

  unfoldable pub shuffle_ranking_order : (ℕ → ℕ) → List A → List (Option A)
  unfolding shuffle_from
  shuffle_ranking_order pick_index item_ids =
      shuffle_from pick_index (length item_ids - 1) (map some item_ids)

  -- The values that are there.
  abbrev pub defined : List (Option A) → List A
  defined [] = []
  defined (none ∷ xs) = defined xs
  defined (some x ∷ xs) = x ∷ defined xs
