-- ===== src/Participation/Run/Growth.antt =====
-- What a call may change of the arrivals: none is lost, and each may only evolve.
use gdm_platform.Common.{
  ℕ, Text, Text-eq, none, some, true, ◌≡◌, ◌≤◌, refl, ap, ◌∙◌, arith, get, get-put, is_some,
  if◌then◌else◌, Option-cases, inl, inr, text_eq_iff, Bool-cases, ◌==◌, ==_refl,
}
use gdm_platform.Shared.Models.{ProlificIdentity, ProlificArrival}
use gdm_platform.Participation.Rules.{arrival_key, stage_index}
use gdm_platform.Participation.State.{
  ParticipationState, set_arrival, record_prolific_arrival, new_arrival,
}

-- The terminal fields of the second arrival are those of the first.
pub record Settled (a b : ProlificArrival) : Type 0 where
  pub outcome : b.outcome ≡ a.outcome
  pub stage : b.stage ≡ a.stage
  pub reason : b.outcome_reason ≡ a.outcome_reason
  pub ended_at : b.ended_at ≡ a.ended_at
  pub elapsed : b.elapsed_seconds ≡ a.elapsed_seconds
  pub kind : b.compensation_kind ≡ a.compensation_kind
  pub amount : b.compensation_amount_pence ≡ a.compensation_amount_pence
  pub last_seen : b.last_seen_at ≡ a.last_seen_at

Settled-refl : (a : ProlificArrival) → Settled a a
Settled-refl a = ground arith

-- The later arrival is the earlier one moved forward, and unchanged if it had ended.
pub record Evolves (a b : ProlificArrival) : Type 0 where
  pub identity : b.identity ≡ a.identity
  pub arrived_at : b.arrived_at ≡ a.arrived_at
  pub forward : stage_index a.stage ≤ stage_index b.stage
  pub final : is_some a.outcome ≡ true → Settled a b

Evolves-refl : (a : ProlificArrival) → Evolves a a
Evolves-refl a = record {
  identity = refl;
  arrived_at = refl;
  forward = omega arith;
  final = λ _. Settled-refl a;
}

Settled-trans : (a b c : ProlificArrival) → Settled a b → Settled b c → Settled a c
Settled-trans a b c p q = record {
  outcome = q.outcome ∙ p.outcome;
  stage = q.stage ∙ p.stage;
  reason = q.reason ∙ p.reason;
  ended_at = q.ended_at ∙ p.ended_at;
  elapsed = q.elapsed ∙ p.elapsed;
  kind = q.kind ∙ p.kind;
  amount = q.amount ∙ p.amount;
  last_seen = q.last_seen ∙ p.last_seen;
}

Evolves-trans : (a b c : ProlificArrival) → Evolves a b → Evolves b c → Evolves a c
Evolves-trans a b c p q = record {
  identity = q.identity ∙ p.identity;
  arrived_at = q.arrived_at ∙ p.arrived_at;
  forward = omega (arith, p.forward, q.forward);
  final = λ h. Settled-trans a b c (p.final h) (q.final (ap is_some (p.final h).outcome ∙ h));
}

-- Every arrival of the first store is in the second, evolved.
abbrev pub Grows : ParticipationState → ParticipationState → Type 0
Grows st st' =
    (key : Text) (a : ProlificArrival)
    → get key st.prolific_arrivals ≡ some a
    → (b : ProlificArrival) × (get key st'.prolific_arrivals ≡ some b) × Evolves a b

pub Grows-refl : (st : ParticipationState) → Grows st st
Grows-refl st key a found = (a, found, Evolves-refl a)

pub Grows-trans : (s t u : ParticipationState) → Grows s t → Grows t u → Grows s u
Grows-trans s t u p q key a found =
    let (b, at, e) = p key a found in
    let (c, at', e') = q key b at in (c, at', Evolves-trans a b c e e')

pub get-set_self :
    (st : ParticipationState) (key : Text) (a : ProlificArrival)
    → get key (set_arrival st key a).prolific_arrivals ≡ some a
get-set_self st key a = get-put key key a st.prolific_arrivals ∙ rw (==_refl key)

pub set-Grows :
    (st : ParticipationState) (key : Text) (a b : ProlificArrival)
    → get key st.prolific_arrivals ≡ some a
    → Evolves a b
    → Grows st (set_arrival st key b)
set-Grows st key a b found e k c at = elim (Bool-cases (key == k)) [
  | inl hit ↦
      let same : key ≡ k = (text_eq_iff key k).0 hit in
      let eq : a ≡ c = ground (arith, same, found, at) in
      (b, get-put k key b st.prolific_arrivals ∙ rw hit, rw (← eq) e)
  | inr miss ↦ (c, get-put k key b st.prolific_arrivals ∙ rw miss at, Evolves-refl c)
]

add-Grows :
    (st : ParticipationState) (key : Text) (b : ProlificArrival)
    → get key st.prolific_arrivals ≡ none
    → Grows st (set_arrival st key b)
add-Grows st key b missing k c at = elim (Bool-cases (key == k)) [
  | inl hit ↦
      let same : key ≡ k = (text_eq_iff key k).0 hit in absurd (ground (arith, same, missing, at))
  | inr miss ↦ (c, get-put k key b st.prolific_arrivals ∙ rw miss at, Evolves-refl c)
]

pub record-Grows :
    (st : ParticipationState) (identity : ProlificIdentity) (now : ℕ)
    → let r = record_prolific_arrival st identity now in
      Grows st r.0 × (get (arrival_key identity) r.0.prolific_arrivals ≡ some r.1)
unfolding record_prolific_arrival
record-Grows st identity now =
    let key = arrival_key identity in
    elim (Option-cases (get key st.prolific_arrivals)) [
      | inl missing ↦
          rw (missing, record_prolific_arrival)
            (
              add-Grows st key (new_arrival identity now) missing,
              get-set_self st key (new_arrival identity now),
            )
      | inr (a, found) ↦ rw (found, record_prolific_arrival) (Grows-refl st, found)
    ]

pub unless_ended-Grows :
    {R : Type 0} (st : ParticipationState) (key : Text) (a next : ProlificArrival) (x y : R)
    → get key st.prolific_arrivals ≡ some a
    → (a.outcome ≡ none → Evolves a next)
    → Grows st
        (if◌then◌else◌ {A = ParticipationState × R}
          (is_some a.outcome)
          (st, x)
          (set_arrival st key next, y)).0
unless_ended-Grows st key a next x y found e = elim (Option-cases a.outcome) [
  | inl open_ ↦ rw open_ (set-Grows st key a next found (e open_))
  | inr (o, ended) ↦ rw ended (Grows-refl st)
]
