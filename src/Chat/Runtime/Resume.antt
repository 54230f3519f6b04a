-- ===== src/Chat/Runtime/Resume.antt =====
-- What a runtime keeps when the service restarts: its records, and the claims of its boundaries.
use Prim.Native.Nat.{ℕ, ◌+◌}
use gdm_platform.Common.{
  Text, Text-eq, List, [], ◌∷◌, ◌++◌, contains, contains-append, add_distinct, Option, none, some,
  true, false, or_else, leb, ltb, if◌then◌else◌, spread, put, keys, JsMap, Among, Unique, ◌≡◌, refl,
  sym, ap, ◌∙◌, inl, inr, arith, Bool-cases, Eq, ◌==◌,
}
use gdm_platform.Shared.Config.{RawConfig}
use gdm_platform.Shared.Interventions.{WindowEvaluation}
use gdm_platform.Shared.Dto.{RuntimeCheckpoint}
use gdm_platform.Checkpoint.Merge.{or_empty}
use gdm_platform.Chat.Runtime.{SessionRuntime, claim_window_boundary, checkpoint}
use gdm_platform.Chat.Runtime.Restore.{later, last_boundary, restore, new_runtime}

append_nil : {A : Type 0} (xs : List A) → xs ++ [] ≡ xs
append_nil [] = refl
append_nil (x ∷ xs) = ap (◌∷◌ x) (append_nil xs)

append_snoc : {A : Type 0} (xs : List A) (y : A) (zs : List A) → (xs ++ y ∷ []) ++ zs ≡ xs ++ y ∷ zs
append_snoc [] y zs = refl
append_snoc (x ∷ xs) y zs = ap (◌∷◌ x) (append_snoc xs y zs)

module _ {K : Type 0} ⦃e : Eq K⦄ where
  absent : (seen : List K) (x : K) (xs : List K) → Unique (seen ++ x ∷ xs) → contains seen x ≡ false
  unfolding contains
  absent [] x xs u = refl
  absent (s ∷ seen) x xs u = ground (
    arith,
    absent seen x xs u.1,
    contains-append seen (x ∷ xs) s,
    e.equals_iff s x,
    e.equals_iff x s,
  )

  add_distinct_of_Unique :
      (seen xs : List K) → Unique (seen ++ xs) → add_distinct seen xs ≡ seen ++ xs
  unfolding add_distinct
  add_distinct_of_Unique seen [] u = sym (append_nil seen)
  add_distinct_of_Unique seen (x ∷ xs) u = rw (absent seen x xs u) (
      add_distinct_of_Unique (seen ++ x ∷ []) xs (rw (append_snoc seen x xs) u)
      ∙ append_snoc seen x xs)

  put_of_absent :
      {V : Type 0} (k : K) (v : V) (m : JsMap K V)
      → contains (keys m) k ≡ false
      → put k v m ≡ m ++ (k, v) ∷ []
  unfolding put contains
  put_of_absent k v [] h = refl
  put_of_absent k v ((i, w) ∷ m) h =
      let miss : (i == k) ≡ false = ground arith in
      let rest : contains (keys m) k ≡ false = ground arith in
      rw miss (ap (◌∷◌ (i, w)) (put_of_absent k v m rest))

  keys-append : {V : Type 0} (m n : JsMap K V) → keys (m ++ n) ≡ keys m ++ keys n
  keys-append [] n = refl
  keys-append ((k, v) ∷ m) n = ap (◌∷◌ k) (keys-append m n)

  spread_of_Unique :
      {V : Type 0} (m n : JsMap K V) → Unique (keys m ++ keys n) → spread m n ≡ m ++ n
  unfolding spread
  spread_of_Unique m [] u = sym (append_nil m)
  spread_of_Unique m ((k, v) ∷ n) u = rw (put_of_absent k v m (absent (keys m) k (keys n) u)) (
      spread_of_Unique (m ++ (k, v) ∷ []) n
        (rw (keys-append m ((k, v) ∷ []), append_snoc (keys m) k (keys n)) u)
      ∙ append_snoc m (k, v) n)

module _ {N : Type 0} (session_id room_id condition_id : Text) (config : RawConfig N)
    (duration_minutes started_at_ms : ℕ) where
  -- A runtime that is restored from a checkpoint whose processed events and rule state have no key
  -- twice hands out the same checkpoint again, with the next revision and with the fields filled
  -- in that older checkpoints omit.
  pub checkpoint-restore :
      (snapshot : RuntimeCheckpoint N)
      → Unique snapshot.processed_event_ids
      → Unique (keys snapshot.rule_state)
      → (checkpoint (
          restore
            (new_runtime session_id room_id condition_id config duration_minutes started_at_ms)
            snapshot)).1
        ≡ record snapshot {
          revision = some (or_else snapshot.revision 0 + 1);
          window_evaluations = some (or_empty snapshot.window_evaluations);
          classification_failures = some (or_empty snapshot.classification_failures);
          redacted_reaction_event_ids = some (or_empty snapshot.redacted_reaction_event_ids);
          reaction_events = some (or_empty snapshot.reaction_events);
        }
  unfolding checkpoint restore new_runtime
  checkpoint-restore snapshot processed state =
      rw
        (
          add_distinct_of_Unique [] snapshot.processed_event_ids processed,
          spread_of_Unique [] snapshot.rule_state state,
        )
        refl

Among-append : {A : Type 0} (xs ys : List A) (a : A) → Among a ys → Among a (xs ++ ys)
Among-append [] ys a h = h
Among-append (x ∷ xs) ys a h = inr (Among-append xs ys a h)

later-le : (last : ℕ) (time : Option ℕ) → leb last (later last time) ≡ true
later-le last none = ground arith
later-le last (some end_ms) = ground arith

end-later :
    (last end_ms : ℕ) (time : Option ℕ) → time ≡ some end_ms → leb end_ms (later last time) ≡ true
end-later last end_ms time p = rw p (ground arith)

-- Each value is above the bound and above all before it.
abbrev pub Climbs : ℕ → List ℕ → Type 0
Climbs bound [] = Unit
Climbs bound (t ∷ ts) = (ltb bound t ≡ true) × Climbs t ts

module _ {N : Type 0} where
  last_boundary-le :
      (last : ℕ) (xs : List (WindowEvaluation N)) → leb last (last_boundary last xs) ≡ true
  unfolding last_boundary
  last_boundary-le last [] = ground arith
  last_boundary-le last (x ∷ xs) =
      ground
        (arith, last_boundary-le (later last x.window_end.time) xs, later-le last x.window_end.time)

  last_boundary-Among :
      (last : ℕ) (xs : List (WindowEvaluation N)) (evaluation : WindowEvaluation N) (end_ms : ℕ)
      → Among evaluation xs
      → evaluation.window_end.time ≡ some end_ms
      → leb end_ms (last_boundary last xs) ≡ true
  unfolding last_boundary
  last_boundary-Among last [] evaluation end_ms h p = elim h [ ]
  last_boundary-Among last (x ∷ xs) evaluation end_ms h p = elim h [
    | inl here ↦
        let at : x.window_end.time ≡ some end_ms =
          sym (ap (λ evaluation. evaluation.window_end.time) here) ∙ p in
        ground (
          arith,
          last_boundary-le (later last x.window_end.time) xs,
          end-later last end_ms x.window_end.time at,
        )
    | inr there ↦ last_boundary-Among (later last x.window_end.time) xs evaluation end_ms there p
  ]

  -- A boundary that a checkpoint has an evaluation of, or of a later one, is not evaluated again by
  -- the restored runtime: its claim is refused and changes nothing.
  pub restored_boundary_refused :
      (runtime : SessionRuntime N) (snapshot : RuntimeCheckpoint N)
      (evaluation : WindowEvaluation N) (end_ms window_end_ms : ℕ)
      → Among evaluation (or_empty snapshot.window_evaluations)
      → evaluation.window_end.time ≡ some end_ms
      → leb window_end_ms end_ms ≡ true
      → claim_window_boundary (restore runtime snapshot) window_end_ms
        ≡ (restore runtime snapshot, false)
  unfolding claim_window_boundary restore
  restored_boundary_refused runtime snapshot evaluation end_ms window_end_ms h p q = rw refused refl
    where
      boundary : ℕ
      boundary =
          last_boundary runtime.last_window_boundary_ms
            (runtime.window_evaluations ++ or_empty snapshot.window_evaluations)

      refused : leb window_end_ms boundary ≡ true
      refused = ground (
        arith,
        last_boundary-Among runtime.last_window_boundary_ms
            (runtime.window_evaluations ++ or_empty snapshot.window_evaluations) evaluation end_ms
            (Among-append runtime.window_evaluations _ evaluation h) p,
      )

  -- The boundaries that the claims of a list are granted, in order.
  unfoldable pub granted : SessionRuntime N → List ℕ → List ℕ
  unfolding claim_window_boundary
  granted runtime [] = []
  granted runtime (t ∷ ts) =
      let rest = granted (claim_window_boundary runtime t).0 ts in
      if (claim_window_boundary runtime t).1 then t ∷ rest else rest

  -- Whatever boundaries the timers claim, and in whatever order, the granted ones climb from the
  -- last boundary on: none is granted twice, and none after a later one.
  pub granted-Climbs :
      (runtime : SessionRuntime N) (ts : List ℕ)
      → Climbs runtime.last_window_boundary_ms (granted runtime ts)
  unfolding granted claim_window_boundary
  granted-Climbs runtime [] = tt
  granted-Climbs runtime (t ∷ ts) = elim (Bool-cases (leb t runtime.last_window_boundary_ms)) [
    | inl late ↦ rw late (granted-Climbs runtime ts)
    | inr due ↦
        rw due (ground arith, granted-Climbs (record runtime { last_window_boundary_ms = t }) ts)
  ]
