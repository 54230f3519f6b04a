-- ===== src/Store/Life.antt =====
-- What may become of a stored session: the diagram of its status, and what stays as it is.
pub mod Growth
pub mod Rosters
pub mod Operations
pub mod Writes
use mathlib.Core.List.{map}
use mathlib.Core.Path.{subst}
use Prim.Native.Nat.{suc, max, ◌≤◌}
use gdm_platform.Common.{
  length, [], ◌∷◌, arith, Text, List, Bool, true, false, Option, ◌≡◌, refl, sym, ◌∙◌, ap, ◌⊎◌, inl,
  inr, Bool-cases,
}
use gdm_platform.Shared.Timestamp.{Timestamp}
use gdm_platform.Shared.Models.{
  Session, SessionStatus, Participant, Condition, waiting, provisioning, running, completed,
  aborted,
}
use gdm_platform.Store.Lookup.{is_waiting, is_running}

-- From the lobby on to provisioning and to running, from each of these three to the end, and from
-- the first two to an abort.
infix 40 ◌⟶◌ ◌⟶*◌
pub data ◌⟶◌ : SessionStatus → SessionStatus → Type 0 where
  claim : waiting ⟶ provisioning
  publish : provisioning ⟶ running
  close : running ⟶ completed
  close_lobby : waiting ⟶ completed
  close_claimed : provisioning ⟶ completed
  give_up : waiting ⟶ aborted
  fail : provisioning ⟶ aborted

pub data ◌⟶*◌ : SessionStatus → SessionStatus → Type 0 where
  here : {s : SessionStatus} → s ⟶* s
  step : {s t u : SessionStatus} → s ⟶ t → t ⟶* u → s ⟶* u

pub ⟶*-trans : {s t u : SessionStatus} → s ⟶* t → t ⟶* u → s ⟶* u
⟶*-trans here q = q
⟶*-trans (step e p) q = step e (⟶*-trans p q)

pub ⟶*-one : {s t : SessionStatus} → s ⟶ t → s ⟶* t
⟶*-one e = step e here

pub ⟶*-refl : {s t : SessionStatus} → s ≡ t → s ⟶* t
⟶*-refl {s} p = subst (λ t. s ⟶* t) p here

not_waiting : {s t : SessionStatus} → s ⟶ t → is_waiting t ≡ false
not_waiting claim = refl
not_waiting publish = refl
not_waiting close = refl
not_waiting close_lobby = refl
not_waiting close_claimed = refl
not_waiting give_up = refl
not_waiting fail = refl

leaves_running : {s t : SessionStatus} → s ⟶ t → is_running s ≡ true → t ≡ completed
leaves_running close h = refl
leaves_running claim h = cc
leaves_running publish h = cc
leaves_running close_lobby h = cc
leaves_running close_claimed h = cc
leaves_running give_up h = cc
leaves_running fail h = cc

-- Nothing comes back to the lobby.
pub is_waiting-⟶* : {s t : SessionStatus} → s ⟶* t → is_waiting s ≡ false → is_waiting t ≡ false
is_waiting-⟶* here h = h
is_waiting-⟶* (step e p) h = is_waiting-⟶* p (not_waiting e)

-- The identifiers of a roster in their order.
abbrev pub ids : {N : Type 0} → List (Participant N) → List Text
ids ps = map (λ p. p.id) ps

module _ {N : Type 0} where
  -- What a later state of a session keeps of an earlier one: its identity for good, and its roster
  -- once it is no lobby any more. It never grows beyond its group size.
  pub record Follows (s t : Session N) : Type 0 where
    pub path : s.status ⟶* t.status
    pub same_id : t.id ≡ s.id
    pub same_round : t.round_id ≡ s.round_id
    pub same_condition : t.condition ≡ s.condition
    pub same_deadline : t.waiting_deadline_at ≡ s.waiting_deadline_at
    pub same_creation : t.created_at ≡ s.created_at
    pub roster : (is_waiting s.status ≡ true) ⊎ (ids t.participants ≡ ids s.participants)
    pub fits : length t.participants ≤ max (length s.participants) s.condition.group_size

  pub Follows-refl : (s : Session N) → Follows s s
  Follows-refl s = record {
    path = here;
    same_id = refl;
    same_round = refl;
    same_condition = refl;
    same_deadline = refl;
    same_creation = refl;
    roster = inr refl;
    fits = omega arith;
  }

  pub Follows-trans : {s t u : Session N} → Follows s t → Follows t u → Follows s u
  Follows-trans {s} {t} {u} p q = record {
    path = ⟶*-trans p.path q.path;
    same_id = q.same_id ∙ p.same_id;
    same_round = q.same_round ∙ p.same_round;
    same_condition = q.same_condition ∙ p.same_condition;
    same_deadline = q.same_deadline ∙ p.same_deadline;
    same_creation = q.same_creation ∙ p.same_creation;
    fits = ground (arith, q.fits, p.fits, ap (λ (c : Condition N). c.group_size) p.same_condition);
    roster = elim (Bool-cases (is_waiting s.status)) [
      | inl lobby ↦ inl lobby
      | inr closed ↦ elim p.roster [
        | inl lobby ↦ inl lobby
        | inr kept ↦ elim q.roster [
          | inl lobby ↦ cc (is_waiting-⟶* p.path closed)
          | inr stays ↦ inr (stays ∙ kept)
        ]
      ]
    ];
  }

  length-ids : (ps qs : List (Participant N)) → ids ps ≡ ids qs → length ps ≡ length qs
  length-ids [] [] h = refl
  length-ids [] (q ∷ qs) h = cc
  length-ids (p ∷ ps) [] h = cc
  length-ids (p ∷ ps) (q ∷ qs) h = let rest : ids ps ≡ ids qs = cc in ap suc (length-ids ps qs rest)

  -- The roster has the same members, or it is that of a lobby and fits.
  abbrev pub IsRosterOf : Session N → List (Participant N) → Type 0
  IsRosterOf s ps =
      (ids ps ≡ ids s.participants)
      ⊎ ((is_waiting s.status ≡ true)
          × (length ps ≤ max (length s.participants) s.condition.group_size))

  -- A change that leaves the identity alone.
  pub Follows-same :
      (s : Session N) (t : Session N)
      → s.status ⟶* t.status
      → IsRosterOf s t.participants
      → (t.id ≡ s.id) × (t.round_id ≡ s.round_id) × (t.condition ≡ s.condition)
      → (t.waiting_deadline_at ≡ s.waiting_deadline_at) × (t.created_at ≡ s.created_at)
      → Follows s t
  Follows-same s t p r (i, o, c) (w, d) = record {
    path = p;
    same_id = i;
    same_round = o;
    same_condition = c;
    same_deadline = w;
    same_creation = d;
    roster = elim r [ inl e ↦ inr e | inr (lobby, l) ↦ inl lobby ];
    fits = elim r [
      | inl e ↦ omega (arith, length-ids t.participants s.participants e)
      | inr (lobby, l) ↦ l
    ];
  }
