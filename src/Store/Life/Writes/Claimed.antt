-- ===== src/Store/Life/Writes/Claimed.antt =====
-- No session is published that was not claimed before.
use gdm_platform.Common.{
  Text, Text-eq, List, [], ◌∷◌, ◌++◌, some, none, Option, get, ◌≡◌, ◌⊎◌, refl, sym, ap, ◌∙◌, inl,
  inr,
}
use gdm_platform.Shared.Models.{Session, SessionStatus, waiting, provisioning, running, aborted}
use gdm_platform.Store.State.{StoreState}
use gdm_platform.Store.Life.Writes.{
  Write, write, write_all, ◌⇝◌, stays, claim, publish, give_up, fail,
}
use gdm_platform.Store.Life.Writes.Steps.{write-Moves}

-- Where a move leads to from the lobby, and from the end.
from_waiting :
    {s t : SessionStatus}
    → s ⇝ t
    → s ≡ waiting
    → (t ≡ waiting) ⊎ ((t ≡ provisioning) ⊎ (t ≡ aborted))
from_waiting stays p = inl p
from_waiting claim p = inr (inl refl)
from_waiting give_up p = inr (inr refl)
from_waiting publish p = cc
from_waiting fail p = cc

from_aborted : {s t : SessionStatus} → s ⇝ t → s ≡ aborted → t ≡ aborted
from_aborted stays p = p
from_aborted claim p = cc
from_aborted give_up p = cc
from_aborted publish p = cc
from_aborted fail p = cc

module _ {N : Type 0} where
  aborted_stays :
      (st : StoreState N) (writes : List (Write N)) (id : Text) (s : Session N)
      → get id st.sessions ≡ some s
      → s.status ≡ aborted
      → (t : Session N) × (get id (write_all st writes).sessions ≡ some t) × (t.status ≡ aborted)
  unfolding write_all
  aborted_stays st [] id s found p = (s, found, p)
  aborted_stays st (w ∷ ws) id s found p =
      let (t, next, move) = write-Moves st w id s found in
      aborted_stays (write st w) ws id t next (from_aborted move p)

  -- After some of the writes, the session was being provisioned.
  abbrev pub WasClaimed : StoreState N → List (Write N) → Text → Type 0
  WasClaimed st writes id =
      (before : List (Write N)) × (after : List (Write N)) × (u : Session N) × (writes
        ≡ before ++ after)
      × (get id (write_all st before).sessions ≡ some u)
      × (u.status ≡ provisioning)

-- A session that is found twice has one status.
one_status :
    {N : Type 0} {o : Option (Session N)} {s t : Session N} {a b : SessionStatus}
    → o ≡ some s
    → o ≡ some t
    → s.status ≡ a
    → t.status ≡ b
    → a ≡ b
one_status {N} {o} {s} {t} found final p q = sym p ∙ ap (status_in s.status) (sym found ∙ final) ∙ q
  where
    status_in : SessionStatus → Option (Session N) → SessionStatus
    status_in d none = d
    status_in d (some u) = u.status

module _ {N : Type 0} where
  claimed_first :
      (st : StoreState N) (w : Write N) (ws : List (Write N)) (id : Text) (u : Session N)
      → get id (write st w).sessions ≡ some u
      → u.status ≡ provisioning
      → WasClaimed st (w ∷ ws) id
  unfolding write_all
  claimed_first st w ws id u next claimed = (w ∷ [], ws, u, refl, next, claimed)

  claimed_later :
      (st : StoreState N) (w : Write N) (ws : List (Write N)) (id : Text)
      → WasClaimed (write st w) ws id
      → WasClaimed st (w ∷ ws) id
  unfolding write_all
  claimed_later st w ws id (before, after, v, split, there, claimed) =
      (w ∷ before, after, v, ap (◌∷◌ w) split, there, claimed)

  never_revived :
      (st : StoreState N) (writes : List (Write N)) (id : Text) (u t : Session N)
      → get id st.sessions ≡ some u
      → u.status ≡ aborted
      → get id (write_all st writes).sessions ≡ some t
      → ¬ (t.status ≡ running)
  never_revived st writes id u t found over final q =
      let (v, last, gone) = aborted_stays st writes id u found over in
      apart (one_status last final gone q)
    where
      apart : ¬ (aborted ≡ running)
      apart p = cc

-- Whatever writes follow in whatever order, a session that was waiting and is running afterwards was
-- claimed in between: after some of them it was being provisioned.
pub published-WasClaimed :
    {N : Type 0} (st : StoreState N) (writes : List (Write N)) (id : Text) (s t : Session N)
    → get id st.sessions ≡ some s
    → s.status ≡ waiting
    → get id (write_all st writes).sessions ≡ some t
    → t.status ≡ running
    → WasClaimed st writes id
unfolding write_all
published-WasClaimed st [] id s t found p final q = absurd (apart (one_status found final p q))
  where
    apart : ¬ (waiting ≡ running)
    apart h = cc
published-WasClaimed st (w ∷ ws) id s t found p final q =
    let (u, next, move) = write-Moves st w id s found in
    elim (from_waiting move p) [
      | inl lobby ↦
          claimed_later st w ws id (published-WasClaimed (write st w) ws id u t next lobby final q)
      | inr (inl claimed) ↦ claimed_first st w ws id u next claimed
      | inr (inr over) ↦ absurd (never_revived (write st w) ws id u t next over final q)
    ]
