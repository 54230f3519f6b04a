-- ===== src/Store/Life/Growth.antt =====
-- The map of sessions under its operations: filed by their identifiers, none lost, and each one a
-- follower of what it was.
use mathlib.Core.Path.{subst}
use gdm_platform.Common.{
  Text, Text-eq, [], ◌∷◌, none, some, true, ◌==◌, ==_iff, JsMap, get, put, keys, values, get-put,
  contains, contains-keys, Unique, put-Unique, map_values, keys-map_values, get-map_values, IsKeyed,
  put-IsKeyed, get-IsKeyed, Among, is_some, ◌≡◌, refl, sym, ap, ◌∙◌, arith, Bool-cases, inl, inr,
}
use gdm_platform.Shared.Models.{Session}
use gdm_platform.Store.Life.{Follows, Follows-refl, Follows-trans}

module _ {N : Type 0} where
  -- Every session is filed once, under its own identifier.
  pub record IsFiled (m : JsMap Text (Session N)) : Type 0 where
    pub keyed : IsKeyed (λ s. s.id) m
    pub unique : Unique (keys m)

  pub record Grown (m m' : JsMap Text (Session N)) : Type 0 where
    pub filed : IsFiled m'
    pub later :
        (id : Text) (s : Session N)
        → get id m ≡ some s
        → (t : Session N) × (get id m' ≡ some t) × Follows s t

  pub Grown-refl : (m : JsMap Text (Session N)) → IsFiled m → Grown m m
  Grown-refl m f = record { filed = f; later = λ id s p. (s, p, Follows-refl s) }

  pub Grown-trans : {m m' m'' : JsMap Text (Session N)} → Grown m m' → Grown m' m'' → Grown m m''
  Grown-trans g h = record {
    filed = h.filed;
    later = λ id s p.
        let (t, q, f) = g.later id s p in
        let (u, r, f') = h.later id t q in (u, r, Follows-trans f f');
  }

  pub Grown-from : {m m' x : JsMap Text (Session N)} → m ≡ m' → Grown m x → Grown m' x
  Grown-from {x = x} e g = subst (λ y. Grown y x) e g

  pub Grown-to : {m x x' : JsMap Text (Session N)} → x ≡ x' → Grown m x → Grown m x'
  Grown-to {m} e g = subst (Grown m) e g

  put-IsFiled :
      (m : JsMap Text (Session N)) (id : Text) (t : Session N)
      → IsFiled m
      → id ≡ t.id
      → IsFiled (put id t m)
  put-IsFiled m id t f k = record {
    keyed = put-IsKeyed (λ (s : Session N). s.id) id t m k f.keyed;
    unique = put-Unique id t m f.unique;
  }

  pub id_of_filed :
      (m : JsMap Text (Session N)) (id : Text) (s : Session N)
      → IsFiled m
      → get id m ≡ some s
      → s.id ≡ id
  id_of_filed m id s f p = get-IsKeyed (λ (s : Session N). s.id) id m s f.keyed p

  -- A session is replaced by a follower.
  pub put-Grown :
      (m : JsMap Text (Session N)) (id : Text) (s t : Session N)
      → IsFiled m
      → get id m ≡ some s
      → Follows s t
      → Grown m (put id t m)
  put-Grown m id s t f p w = record {
    filed = put-IsFiled m id t f (sym (w.same_id ∙ id_of_filed m id s f p));
    later = λ j r q. elim (Bool-cases (id == j)) [
      | inl hit ↦
          let same : id ≡ j = (==_iff id j).0 hit in
          let old : s ≡ r = ground (arith, p, q, ap (λ k. get k m) same) in
          (t, get-put j id t m ∙ rw hit refl, subst (λ x. Follows x t) old w)
      | inr miss ↦ (r, get-put j id t m ∙ rw miss q, Follows-refl r)
    ];
  }

  -- A session is stored under an identifier that nothing has.
  pub new-Grown :
      (m : JsMap Text (Session N)) (id : Text) (t : Session N)
      → IsFiled m
      → get id m ≡ none
      → t.id ≡ id
      → Grown m (put id t m)
  new-Grown m id t f p k = record {
    filed = put-IsFiled m id t f (sym k);
    later = λ j r q. elim (Bool-cases (id == j)) [
      | inl hit ↦ let same : id ≡ j = (==_iff id j).0 hit in cc (p, q, ap (λ k. get k m) same)
      | inr miss ↦ (r, get-put j id t m ∙ rw miss q, Follows-refl r)
    ];
  }

  map_values-IsKeyed :
      (f : Session N → Session N) (m : JsMap Text (Session N))
      → ((s : Session N) → (f s).id ≡ s.id)
      → IsKeyed (λ (s : Session N). s.id) m
      → IsKeyed (λ (s : Session N). s.id) (map_values f m)
  map_values-IsKeyed f [] h k = tt
  map_values-IsKeyed f ((j, s) ∷ m) h k = (k.0 ∙ sym (h s), map_values-IsKeyed f m h k.1)

  -- Every session is replaced by a follower.
  pub map_values-Grown :
      (f : Session N → Session N) (m : JsMap Text (Session N))
      → ((s : Session N) → Follows s (f s))
      → IsFiled m
      → Grown m (map_values f m)
  map_values-Grown f m h k = record {
    filed = record {
      keyed = map_values-IsKeyed f m (λ s. (h s).same_id) k.keyed;
      unique = subst Unique (sym (keys-map_values f m)) k.unique;
    };
    later = λ j s p. (f s, get-map_values f j m p, h s);
  }

  -- A session that stands among the values is filed under its identifier.
  pub get_of_among :
      (m : JsMap Text (Session N)) (s : Session N)
      → IsFiled m
      → Among s (values m)
      → get s.id m ≡ some s
  unfolding get
  get_of_among m s f a = go m s f.keyed f.unique a
    where
      go :
          (m : JsMap Text (Session N)) (s : Session N)
          → IsKeyed (λ (s : Session N). s.id) m
          → Unique (keys m)
          → Among s (values m)
          → get s.id m ≡ some s
      go [] s k u a = elim a [ ]
      go ((j, t) ∷ m) s k u (inl e) =
          let hit : (j == s.id) ≡ true = (==_iff j s.id).1 (k.0 ∙ ap (λ x. x.id) (sym e)) in
          rw (hit, get) (ap some (sym e))
      go ((j, t) ∷ m) s k u (inr a) =
          let rest = go m s k.1 u.1 a in
          elim (Bool-cases (j == s.id)) [
            | inl hit ↦
                let same : j ≡ s.id = (==_iff j s.id).0 hit in
                let there : contains (keys m) s.id ≡ true =
                  contains-keys s.id m ∙ ap is_some rest in
                cc (u.0, there, ap (contains (keys m)) same)
            | inr miss ↦ rw (miss, get) rest
          ]
