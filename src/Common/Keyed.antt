-- ===== src/Common/Keyed.antt =====
-- The values of a map that an array has filled, found again by their keys.
use gdm_platform.Common.Tests.{Eq, ◌==◌, Option-cases, is_some}
use gdm_platform.Common.Lists.{contains, find, keep, get_last?}
use gdm_platform.Common.Maps.{JsMap, get, put, keys, values, absorb, meet}
use mathlib.Core.Path.{◌≡◌, refl, sym}
use mathlib.Core.Logic.{inl, inr}
use mathlib.Core.Option.{Option, some}
use mathlib.Core.List.{List, [], ◌∷◌, map}
use native.Mathlib.Omega.{arith}

module _ {ℓ κ} {K : Type ℓ} {V : Type κ} ⦃e : Eq K⦄ (key : V → K) where
  -- `xs.find((x) => key(x) === j)`.
  abbrev pub find_key : K → List V → Option V
  find_key j = find (λ x. key x == j)

  -- The last value of the list under the key `j`.
  abbrev pub last_key : K → List V → Option V
  last_key j xs = get_last? (keep (λ x. key x == j) xs)

  -- Every value is filed under its own key.
  abbrev pub IsKeyed : JsMap K V → Type (ℓ ⊔ κ)
  IsKeyed [] = Unit
  IsKeyed ((k, v) ∷ m) = (k ≡ key v) × IsKeyed m

  pub find_key-values : (j : K) (m : JsMap K V) → IsKeyed m → find_key j (values m) ≡ get j m
  unfolding get
  find_key-values j [] h = refl
  find_key-values j ((k, v) ∷ m) h = ground (arith, find_key-values j m h.1, h.0)

  pub key_of_found : (j : K) (xs : List V) (v : V) → find_key j xs ≡ some v → key v ≡ j
  key_of_found j [] v p = cc
  key_of_found j (x ∷ xs) v p = ground (arith, key_of_found j xs v, e.equals_iff (key x) j)

  pub contains-map : (j : K) (xs : List V) → contains (map key xs) j ≡ is_some (find_key j xs)
  unfolding contains
  contains-map j [] = refl
  contains-map j (x ∷ xs) = ground (arith, contains-map j xs)

  pub map-key-values : (m : JsMap K V) → IsKeyed m → map key (values m) ≡ keys m
  map-key-values [] h = refl
  map-key-values ((k, v) ∷ m) h = ground (arith, map-key-values m h.1, h.0)

  pub put-IsKeyed : (k : K) (v : V) (m : JsMap K V) → k ≡ key v → IsKeyed m → IsKeyed (put k v m)
  unfolding put
  put-IsKeyed k v [] p h = (p, tt)
  put-IsKeyed k v ((i, w) ∷ m) p h = ground (arith, put-IsKeyed k v m p h.1, e.equals_iff i k)

  pub get-IsKeyed : (j : K) (m : JsMap K V) (v : V) → IsKeyed m → get j m ≡ some v → key v ≡ j
  unfolding get
  get-IsKeyed j [] v h p = cc
  get-IsKeyed j ((k, w) ∷ m) v h p = ground (arith, get-IsKeyed j m v h.1, e.equals_iff k j)

  module _ (fresh : V → V) (combine : V → V → V) (fresh_key : (x : V) → key (fresh x) ≡ key x)
      (combine_key : (c x : V) → key c ≡ key x → key (combine c x) ≡ key x) where
    meet_key :
        (m : JsMap K V) (x : V) → IsKeyed m → key x ≡ key (meet key fresh combine (get (key x) m) x)
    meet_key m x h = elim (Option-cases (get (key x) m)) [
      | inl missing ↦ rw missing (sym (fresh_key x))
      | inr (c, found) ↦ rw found (sym (combine_key c x (get-IsKeyed (key x) m c h found)))
    ]

    pub absorb-IsKeyed :
        (m : JsMap K V) (xs : List V) → IsKeyed m → IsKeyed (absorb key fresh combine m xs)
    unfolding absorb
    absorb-IsKeyed m [] h = h
    absorb-IsKeyed m (x ∷ xs) h =
        absorb-IsKeyed (put (key x) (meet key fresh combine (get (key x) m) x) m) xs
          (put-IsKeyed (key x) (meet key fresh combine (get (key x) m) x) m (meet_key m x h) h)
