-- ===== src/Chat/Elapse/Target.antt =====
-- Who is nudged: the first of the members over the threshold.
use mathlib.Core.Path.{subst}
use gdm_platform.Common.{
  List, [], ◌∷◌, keep, All, Among, sort, insert_sorted, Sorted, sort-Sorted, Bool, true, false, ◌≡◌,
  refl, ap, ◌∙◌, ◌⊎◌, inl, inr, arith, Bool-cases,
}
use gdm_platform.Shared.Number.{Number}
use gdm_platform.Shared.Interventions.{InterventionConfig, ContributionShare}
use gdm_platform.Chat.Evaluate.{dominates, over_threshold}

module _ {A : Type 0} (le : A → A → Bool) where
  insert_sorted-All :
      (P : A → Type 0) (a : A) (xs : List A) → All P (insert_sorted le a xs) → P a × All P xs
  unfolding insert_sorted
  insert_sorted-All P a [] h = h
  insert_sorted-All P a (x ∷ xs) h = elim (Bool-cases (le a x)) [
    | inl before ↦ rw before at h
    | inr behind ↦
        let (p, q) = rw behind at h in let (r, s) = insert_sorted-All P a xs q in (r, (p, s))
  ]

  sort-All : (P : A → Type 0) (xs : List A) → All P (sort le xs) → All P xs
  unfolding sort
  sort-All P [] h = tt
  sort-All P (x ∷ xs) h = let (p, q) = insert_sorted-All P x (sort le xs) h in (p, sort-All P xs q)

  Among-insert_sorted :
      (b a : A) (xs : List A) → Among b (insert_sorted le a xs) → (b ≡ a) ⊎ Among b xs
  unfolding insert_sorted
  Among-insert_sorted b a [] h = h
  Among-insert_sorted b a (x ∷ xs) h = elim (Bool-cases (le a x)) [
    | inl before ↦ rw before at h
    | inr behind ↦ elim (rw behind at h) [
      | inl p ↦ inr (inl p)
      | inr q ↦ elim (Among-insert_sorted b a xs q) [ inl p ↦ inl p | inr r ↦ inr (inr r) ]
    ]
  ]

  Among-sort : (b : A) (xs : List A) → Among b (sort le xs) → Among b xs
  unfolding sort
  Among-sort b [] h = h
  Among-sort b (x ∷ xs) h = elim (Among-insert_sorted b x (sort le xs) h) [
    | inl p ↦ inl p
    | inr q ↦ inr (Among-sort b xs q)
  ]

module _ {A : Type 0} (test : A → Bool) where
  Among-keep : (b : A) (xs : List A) → Among b (keep test xs) → Among b xs × (test b ≡ true)
  Among-keep b [] h = elim h [ ]
  Among-keep b (x ∷ xs) h = elim (Bool-cases (test x)) [
    | inl hit ↦ elim (rw hit at h) [
      | inl p ↦ (inl p, ap test p ∙ hit)
      | inr q ↦ let (r, kept) = Among-keep b xs q in (inr r, kept)
    ]
    | inr miss ↦ let (p, q) = Among-keep b xs (rw miss at h) in (inr p, q)
  ]

  All-keep :
      (P : A → Type 0) (xs : List A)
      → All P (keep test xs)
      → ((a : A) → test a ≡ false → P a)
      → All P xs
  All-keep P [] h miss = tt
  All-keep P (x ∷ xs) h miss = elim (Bool-cases (test x)) [
    | inl kept ↦ let (p, q) = rw kept at h in (p, All-keep P xs q miss)
    | inr left ↦ (miss x left, All-keep P xs (rw left at h) miss)
  ]

module _ {N : Type 0} ⦃n : Number N⦄ where
  dominates_total : (a b : ContributionShare N) → dominates a b ≡ false → dominates b a ≡ true
  dominates_total a b p = ground (
    arith,
    n.le_total a.dominance_score b.dominance_score,
    n.le_total b.dominance_score a.dominance_score,
    n.le_total a.score b.score,
    n.le_total b.score a.score,
  )

  dominates_trans :
      (a b c : ContributionShare N)
      → dominates a b ≡ true
      → dominates b c ≡ true
      → dominates a c ≡ true
  dominates_trans a b c p q = ground (
    arith,
    n.le_total a.dominance_score b.dominance_score,
    n.le_total b.dominance_score c.dominance_score,
    n.le_total a.dominance_score c.dominance_score,
    n.le_trans a.dominance_score c.dominance_score b.dominance_score,
    n.le_trans b.dominance_score a.dominance_score c.dominance_score,
    n.le_trans c.dominance_score b.dominance_score a.dominance_score,
    n.le_trans c.score b.score a.score,
  )

  dominates-le :
      (a b : ContributionShare N)
      → dominates a b ≡ true
      → n.le b.dominance_score a.dominance_score ≡ true
  dominates-le a b p = ground (arith, n.le_total a.dominance_score b.dominance_score)

  -- The member stands in the split, is at the threshold or over it, and nobody's dominance
  -- is above theirs.
  pub record IsDominant (threshold : N) (split : List (ContributionShare N))
      (target : ContributionShare N) : Type 0 where
    pub among : Among target split
    pub over : n.le threshold target.dominance_score ≡ true
    pub maximal : All (λ entry. n.le entry.dominance_score target.dominance_score ≡ true) split

  All-below :
      (target : ContributionShare N) (xs : List (ContributionShare N))
      → All (λ y. dominates target y ≡ true) xs
      → All (λ y. n.le y.dominance_score target.dominance_score ≡ true) xs
  All-below target [] h = tt
  All-below target (x ∷ xs) h = (dominates-le target x h.0, All-below target xs h.1)

  pub first-IsDominant :
      (config : InterventionConfig N) (split : List (ContributionShare N))
      {target : ContributionShare N} {rest : List (ContributionShare N)}
      → over_threshold config split ≡ target ∷ rest
      → IsDominant config.contribution_threshold split target
  unfolding over_threshold
  first-IsDominant config split {target} {rest} p =
      let (among, over) =
        Among-keep is_over target split
          (Among-sort dominates target (keep is_over split) (rw p (inl refl))) in
      record {
        among = among;
        over = over;
        maximal =
            All-keep is_over below split
              (sort-All dominates below (keep is_over split)
                (rw p (reflexive, All-below target rest ordered.0)))
              (λ entry under.
                n.le_trans entry.dominance_score config.contribution_threshold
                  target.dominance_score
                  (n.le_total config.contribution_threshold entry.dominance_score under) over);
      }
    where
      is_over : ContributionShare N → Bool
      is_over entry = n.le config.contribution_threshold entry.dominance_score

      below : ContributionShare N → Type 0
      below entry = n.le entry.dominance_score target.dominance_score ≡ true

      reflexive : n.le target.dominance_score target.dominance_score ≡ true
      reflexive = ground (arith, n.le_total target.dominance_score target.dominance_score)

      ordered : Sorted dominates (target ∷ rest)
      ordered =
          subst (Sorted dominates) p
            (sort-Sorted dominates dominates_total dominates_trans (keep is_over split))
