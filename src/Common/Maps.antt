-- ===== src/Common/Maps.antt =====
-- A JavaScript `Map` (insertion order kept, a write to a present key stays in its place), and the
-- loops that fill one from an array, keyed by a function of the value.
use mathlib.Core.Path.{◌≡◌, refl, sym, ap, ◌∙◌, subst, subst₂}
use mathlib.Core.Logic.{inl, inr}
use mathlib.Core.Option.{Option, none, some}
use mathlib.Core.List.{List, [], ◌∷◌, ◌++◌, map}
use native.Mathlib.Omega.{arith}
use gdm_platform.Common.Tests.{Eq, ◌==◌, ==_refl, if◌then◌else◌, Bool-cases, is_some}
use gdm_platform.Common.Lists.{
  contains, add_distinct, Unique, Unique-snoc, add_distinct_idem, add_distinct-Unique,
}

abbrev pub JsMap {ℓ κ} : Type ℓ → Type κ → Type (ℓ ⊔ κ)
JsMap K V = List (K × V)

module _ {ℓ κ} {K : Type ℓ} {V : Type κ} ⦃e : Eq K⦄ where
  unfoldable pub get : K → JsMap K V → Option V
  get j [] = none
  get j ((k, v) ∷ m) = if k == j then some v else get j m

  unfoldable pub put : K → V → JsMap K V → JsMap K V
  put j w [] = (j, w) ∷ []
  put j w ((k, v) ∷ m) = if k == j then (k, w) ∷ m else (k, v) ∷ put j w m

  abbrev pub keys : JsMap K V → List K
  keys [] = []
  keys ((k, v) ∷ m) = k ∷ keys m

  abbrev pub values : JsMap K V → List V
  values [] = []
  values ((k, v) ∷ m) = v ∷ values m

  -- A change of every value in place.
  abbrev pub map_values : (V → V) → JsMap K V → JsMap K V
  map_values f [] = []
  map_values f ((k, v) ∷ m) = (k, f v) ∷ map_values f m

  -- `{ ...m, ...n }`.
  unfoldable pub spread : JsMap K V → JsMap K V → JsMap K V
  unfolding put
  spread m [] = m
  spread m ((k, v) ∷ n) = spread (put k v m) n

  pub get-put :
      (j k : K) (v : V) (m : JsMap K V) → get j (put k v m) ≡ (if k == j then some v else get j m)
  unfolding get put
  get-put j k v [] = refl
  get-put j k v ((i, w) ∷ m) =
      ground (arith, get-put j k v m, e.equals_iff i k, e.equals_iff i j, e.equals_iff k j)

  pub contains-keys : (j : K) (m : JsMap K V) → contains (keys m) j ≡ is_some (get j m)
  unfolding get contains
  contains-keys j [] = refl
  contains-keys j ((k, v) ∷ m) = ground (arith, contains-keys j m)

  pub keys-put :
      (k : K) (v : V) (m : JsMap K V)
      → keys (put k v m) ≡ (if contains (keys m) k then keys m else keys m ++ k ∷ [])
  unfolding put contains
  keys-put k v [] = refl
  keys-put k v ((i, w) ∷ m) = ground (arith, keys-put k v m)

  pub keys-map_values : (f : V → V) (m : JsMap K V) → keys (map_values f m) ≡ keys m
  keys-map_values f [] = refl
  keys-map_values f ((k, v) ∷ m) = ap (◌∷◌ k) (keys-map_values f m)

  pub get-map_values :
      (f : V → V) (k : K) (m : JsMap K V) {v : V}
      → get k m ≡ some v
      → get k (map_values f m) ≡ some (f v)
  unfolding get
  get-map_values f k [] p = cc
  get-map_values f k ((i, w) ∷ m) {v} p = elim (Bool-cases (i == k)) [
    | inl hit ↦ let same : w ≡ v = ground arith in rw hit (ap (λ u. some (f u)) same)
    | inr miss ↦ rw miss (get-map_values f k m (rw miss at p))
  ]

  pub get-map_values_none :
      (f : V → V) (k : K) (m : JsMap K V) → get k m ≡ none → get k (map_values f m) ≡ none
  unfolding get
  get-map_values_none f k [] p = refl
  get-map_values_none f k ((i, w) ∷ m) p = elim (Bool-cases (i == k)) [
    | inl hit ↦ cc (rw hit at p)
    | inr miss ↦ rw miss (get-map_values_none f k m (rw miss at p))
  ]

  -- The predicate holds of every entry.
  abbrev pub AllEntries {μ} : (K → V → Type μ) → JsMap K V → Type μ
  AllEntries P [] = Unit
  AllEntries P ((k, v) ∷ m) = P k v × AllEntries P m

  pub put-AllEntries {μ} :
      (P : K → V → Type μ) (k : K) (v : V) (m : JsMap K V)
      → P k v
      → AllEntries P m
      → AllEntries P (put k v m)
  unfolding put
  put-AllEntries P k v [] p h = (p, tt)
  put-AllEntries P k v ((i, w) ∷ m) p h = elim (Bool-cases (i == k)) [
    | inl hit ↦ rw hit (subst (λ j. P j v) (sym ((e.equals_iff i k).0 hit)) p, h.1)
    | inr miss ↦ rw miss (h.0, put-AllEntries P k v m p h.1)
  ]

  pub get-AllEntries {μ} :
      (P : K → V → Type μ) (k : K) (m : JsMap K V) {v : V}
      → AllEntries P m
      → get k m ≡ some v
      → P k v
  unfolding get
  get-AllEntries P k [] h p = cc
  get-AllEntries P k ((i, w) ∷ m) {v} h p = elim (Bool-cases (i == k)) [
    | inl hit ↦ let same : w ≡ v = ground arith in subst₂ P ((e.equals_iff i k).0 hit) same h.0
    | inr miss ↦ get-AllEntries P k m h.1 (rw miss at p)
  ]

  -- The later of two writes to one key counts.
  pub put-put : (k : K) (v w : V) (m : JsMap K V) → put k v (put k w m) ≡ put k v m
  unfolding put
  put-put k v w [] = rw (==_refl k) refl
  put-put k v w ((i, u) ∷ m) = elim (Bool-cases (i == k)) [
    | inl hit ↦ rw hit (rw hit refl)
    | inr miss ↦ rw miss (rw miss (ap (◌∷◌ (i, u)) (put-put k v w m)))
  ]

  pub put-Unique : (k : K) (v : V) (m : JsMap K V) → Unique (keys m) → Unique (keys (put k v m))
  put-Unique k v m u = elim (Bool-cases (contains (keys m) k)) [
    | inl old ↦ rw (keys-put k v m) (rw old u)
    | inr new ↦ rw (keys-put k v m) (rw new (Unique-snoc (keys m) k u new))
  ]

  -- A map is known by its keys in order and its lookups.
  pub map_ext :
      (m n : JsMap K V) → Unique (keys m) → keys m ≡ keys n → ((j : K) → get j m ≡ get j n) → m ≡ n
  unfolding get contains
  map_ext [] [] u p h = refl
  map_ext [] (_ ∷ n) u p h = cc
  map_ext (_ ∷ m) [] u p h = cc
  map_ext ((k, v) ∷ m) ((i, w) ∷ n) u p h =
      let same : k ≡ i = cc in
      let rest : keys m ≡ keys n = cc in
      let here : some v ≡ some w = ground (arith, h k, ==_refl k, e.equals_iff i k) in
      let tails : m ≡ n = map_ext m n u.1 rest (below same rest) in ground (arith, here, tails)
    where
      below : k ≡ i → keys m ≡ keys n → (j : K) → get j m ≡ get j n
      below same rest j = elim (Bool-cases (k == j)) [
        | inl hit ↦
            let eq : k ≡ j = (e.equals_iff k j).0 hit in
            ground
              (arith, u.0, contains-keys k m, contains-keys k n, ap (λ l. contains l k) rest, eq)
        | inr miss ↦ ground (arith, h j, miss, same)
      ]

-- `for (const x of xs) map.set(key(x), …)`: a new key takes `fresh x`, a present one
-- `combine current x`.
module _ {ℓ κ} {K : Type ℓ} {V : Type κ} ⦃e : Eq K⦄ (key : V → K) (fresh : V → V)
    (combine : V → V → V) where
  abbrev pub meet : Option V → V → V
  meet none x = fresh x
  meet (some c) x = combine c x

  unfoldable pub absorb : JsMap K V → List V → JsMap K V
  absorb m [] = m
  absorb m (x ∷ xs) = absorb (put (key x) (meet (get (key x) m) x) m) xs

  -- What the loop does to the one entry under `j`.
  unfoldable pub entry : K → Option V → List V → Option V
  entry j o [] = o
  entry j o (x ∷ xs) = entry j (if key x == j then some (meet o x) else o) xs

  pub get-absorb :
      (j : K) (m : JsMap K V) (xs : List V) → get j (absorb m xs) ≡ entry j (get j m) xs
  unfolding absorb entry
  get-absorb j m [] = refl
  get-absorb j m (x ∷ xs) =
      let next = put (key x) (meet (get (key x) m) x) m in
      let here : get j next ≡ (if key x == j then some (meet (get j m) x) else get j m) =
        ground (arith, get-put j (key x) (meet (get (key x) m) x) m, e.equals_iff (key x) j) in
      get-absorb j next xs ∙ ap (λ o. entry j o xs) here

  pub keys-absorb :
      (m : JsMap K V) (xs : List V) → keys (absorb m xs) ≡ add_distinct (keys m) (map key xs)
  unfolding absorb add_distinct
  keys-absorb m [] = refl
  keys-absorb m (x ∷ xs) =
      let v = meet (get (key x) m) x in
      keys-absorb (put (key x) v m) xs
      ∙ ap (λ l. add_distinct l (map key xs)) (keys-put (key x) v m)

  pub absorb-append :
      (m : JsMap K V) (xs ys : List V) → absorb m (xs ++ ys) ≡ absorb (absorb m xs) ys
  unfolding absorb
  absorb-append m [] ys = refl
  absorb-append m (x ∷ xs) ys = absorb-append (put (key x) (meet (get (key x) m) x) m) xs ys

  -- If a second pass changes no entry, the loop is idempotent.
  pub absorb_idem :
      (m : JsMap K V) (xs : List V)
      → Unique (keys m)
      → ((j : K) (o : Option V) → entry j (entry j o xs) xs ≡ entry j o xs)
      → absorb (absorb m xs) xs ≡ absorb m xs
  absorb_idem m xs u h = sym (
      map_ext (absorb m xs) (absorb (absorb m xs) xs)
        (rw (keys-absorb m xs) (add_distinct-Unique (keys m) (map key xs) u))
        (sym (
          keys-absorb (absorb m xs) xs
          ∙ (rw (keys-absorb m xs) (add_distinct_idem (keys m) (map key xs)))))
        (λ j. sym (get-absorb j (absorb m xs) xs ∙ (rw (get-absorb j m xs) (h j (get j m))))))
