-- ===== src/Participation/Run/Claims.antt =====
-- The claim of a stale heartbeat, which a later heartbeat defeats.
use gdm_platform.Common.{
  ℕ, Text-eq, none, some, true, ◌≡◌, ◌<◌, sym, arith, get, is_some, if◌then◌else◌, Option-cases,
  Bool-cases, inl, inr, ◌||◌, ◌∙◌, ◌⊎◌,
}
use gdm_platform.Shared.Models.{ProlificIdentity, ProlificArrival, ParticipationStage}
use gdm_platform.Participation.Rules.{Termination, arrival_key}
use gdm_platform.Participation.State.{
  ParticipationState, Milestone, set_arrival, advance, record_prolific_arrival,
  record_participation_stage, stage_of,
}
use gdm_platform.Participation.Store.{terminate_stale_prolific_participation, seen_after}
use gdm_platform.Participation.Run.Growth.{record-Grows, get-set_self}

-- The arrival is open and was last seen after the cutoff.
abbrev pub SeenAfter : ℕ → ProlificArrival → Type 0
SeenAfter cutoff a = (ms : ℕ) × (a.last_seen_at.time ≡ some ms) × (cutoff < ms)

guard :
    {cutoff : ℕ} (a : ProlificArrival)
    → (is_some a.outcome ≡ true) ⊎ SeenAfter cutoff a
    → (is_some a.outcome || seen_after cutoff a.last_seen_at) ≡ true
guard a (inl ended) = ground arith
guard a (inr (ms, at, late)) = ground arith

-- A claim is refused, and nothing changes, for an unknown submission, for one that has ended and
-- for one that was seen after the cutoff.
claim_refused :
    (st : ParticipationState) (identity : ProlificIdentity) (cutoff : ℕ) (t : Termination) (now : ℕ)
    → ((a : ProlificArrival)
        → get (arrival_key identity) st.prolific_arrivals ≡ some a
        → (is_some a.outcome ≡ true) ⊎ SeenAfter cutoff a)
    → terminate_stale_prolific_participation st identity cutoff t now ≡ (st, none)
unfolding terminate_stale_prolific_participation
claim_refused st identity cutoff t now h =
    let key = arrival_key identity in
    elim (Option-cases (get key st.prolific_arrivals)) [
      | inl missing ↦ rw (missing, terminate_stale_prolific_participation)
      | inr (a, found) ↦
          rw (found, terminate_stale_prolific_participation) (rw (guard a (h a found)))
    ]

advance-seen :
    (a : ProlificArrival) (s : ParticipationStage) (now : ℕ)
    → (advance a s now).last_seen_at.time ≡ some now
unfolding advance
advance-seen a s now = ground arith

-- What a heartbeat leaves under its key has ended, or was seen at that moment.
heartbeat_seen :
    (st : ParticipationState) (identity : ProlificIdentity) (m : Milestone) (seen : ℕ)
    (a : ProlificArrival)
    → get (arrival_key identity) (record_participation_stage st identity m seen).0.prolific_arrivals
      ≡ some a
    → (is_some a.outcome ≡ true) ⊎ (a.last_seen_at.time ≡ some seen)
unfolding record_participation_stage
heartbeat_seen st identity m seen a at =
    let r = record_prolific_arrival st identity seen in
    by_outcome r.0 r.1 (record-Grows st identity seen).1 at
  where
    by_outcome :
        (st' : ParticipationState) (b : ProlificArrival)
        → get (arrival_key identity) st'.prolific_arrivals ≡ some b
        → get
            (arrival_key identity)
            (if◌then◌else◌ {A = ParticipationState × ProlificArrival}
              (is_some b.outcome)
              (st', b)
              (
                set_arrival st' (arrival_key identity) (advance b (stage_of m) seen),
                advance b (stage_of m) seen,
              )).0.prolific_arrivals
          ≡ some a
        → (is_some a.outcome ≡ true) ⊎ (a.last_seen_at.time ≡ some seen)
    by_outcome st' b found at' = elim (Bool-cases (is_some b.outcome)) [
      | inl ended ↦
          let same : b ≡ a = ground (arith, found, rw ended at at') in inl (rw same at ended)
      | inr open_ ↦
          let next = advance b (stage_of m) seen in
          let same : some next ≡ some a =
            sym (get-set_self st' (arrival_key identity) next) ∙ (rw open_ at at') in
          let eq : next ≡ a = cc in inr (rw eq at (advance-seen b (stage_of m) seen))
    ]

-- A heartbeat after the cutoff wins: whatever the store held, a claim that follows it changes
-- nothing and reports nothing.
pub heartbeat_wins :
    (st : ParticipationState) (identity : ProlificIdentity) (m : Milestone) (seen cutoff : ℕ)
    (t : Termination) (now : ℕ)
    → cutoff < seen
    → let st' = (record_participation_stage st identity m seen).0 in
      terminate_stale_prolific_participation st' identity cutoff t now ≡ (st', none)
heartbeat_wins st identity m seen cutoff t now late =
    claim_refused (record_participation_stage st identity m seen).0 identity cutoff t now
      (λ a at. seen_late a (heartbeat_seen st identity m seen a at))
  where
    seen_late :
        (a : ProlificArrival)
        → (is_some a.outcome ≡ true) ⊎ (a.last_seen_at.time ≡ some seen)
        → (is_some a.outcome ≡ true) ⊎ SeenAfter cutoff a
    seen_late a (inl ended) = inl ended
    seen_late a (inr at) = inr (seen, at, late)
