-- ===== src/Sessions/Sweep/Settled.antt =====
-- Nobody who sits in an expired lobby is left without an ending.
use Prim.Native.Nat.{ℕ}
use gdm_platform.Common.{
  Text, Text-eq, [], ◌∷◌, some, JsMap, get, ◌==◌, Among, get-map_values, ◌≡◌, refl, sym, ap, ◌∙◌,
  Bool-cases, Option-cases, inl, inr,
}
use gdm_platform.Shared.Models.{Session, Participant, ProlificIdentity}
use gdm_platform.Store.State.{StoreState}
use gdm_platform.Store.Lifecycle.{
  Aborting, expired, LobbyStatus, aborted_lobby, aborts, abort_session, abort_if_due, aborted_each,
  abort_lobbies,
}
use gdm_platform.Sessions.State.{ServiceState, Environment, with_store}
use gdm_platform.Sessions.Sweep.{sweep_expired_waiting_rooms}
use gdm_platform.Sessions.Sweep.Ended.{
  HasEnded, terminate_expired-Grows, terminate_expired-HasEnded,
}

module _ {N : Type 0} (aborting : Aborting) where
  aborted_each-Among :
      (m : JsMap Text (Session N)) (id : Text) (s : Session N) (prior : LobbyStatus)
      → get id m ≡ some s
      → aborts aborting s ≡ some prior
      → Among (aborted_lobby s prior) (aborted_each aborting m)
  unfolding get aborted_each
  aborted_each-Among [] id s prior found due = cc
  aborted_each-Among ((j, t) ∷ m) id s prior found due = elim (Bool-cases (j == id)) [
    | inl hit ↦
        let same : t ≡ s = cc (rw (hit, get) at found) in
        let due' : aborts aborting t ≡ some prior = ap (aborts aborting) same ∙ due in
        rw (due', aborted_each) (inl (ap (λ (x : Session N). aborted_lobby x prior) (sym same)))
    | inr miss ↦
        let rest = aborted_each-Among m id s prior (rw (miss, get) at found) due in
        elim (Option-cases (aborts aborting t)) [
          | inl spared ↦ rw (spared, aborted_each) rest
          | inr (other, gone) ↦ rw (gone, aborted_each) (inr rest)
        ]
  ]

  abort_due :
      (s : Session N) (prior : LobbyStatus)
      → aborts aborting s ≡ some prior
      → abort_if_due aborting s ≡ abort_session s
  unfolding abort_if_due
  abort_due s prior due = rw (due, abort_if_due) refl

-- After a sweep, a lobby whose deadline has passed is aborted, and each of its participants who came
-- from Prolific has an arrival with an outcome.
pub swept-HasEnded :
    (env : Environment) {N : Type 0} (st : ServiceState N) (now : ℕ) (s : Session N)
    (prior : LobbyStatus) (p : Participant N) (identity : ProlificIdentity)
    → get s.id st.store.sessions ≡ some s
    → aborts (expired now) s ≡ some prior
    → Among p s.participants
    → p.prolific ≡ some identity
    → (get s.id (sweep_expired_waiting_rooms env st now).0.store.sessions ≡ some (abort_session s))
      × HasEnded (sweep_expired_waiting_rooms env st now).0.participation identity
unfolding sweep_expired_waiting_rooms abort_lobbies
swept-HasEnded env {N} st now s prior p identity found due seat from_prolific =
    let (store, lobbies) = abort_lobbies st.store (expired now) in
    let stored : get s.id store.sessions ≡ some (abort_session s) =
      get-map_values (abort_if_due (expired now)) s.id st.store.sessions found
      ∙ ap some (abort_due (expired now) s prior due) in
    let (same, _) = terminate_expired-Grows env now lobbies (with_store st store) in
    (
      ap (λ (x : StoreState N). get s.id x.sessions) same ∙ stored,
      terminate_expired-HasEnded env now lobbies (with_store st store) (aborted_lobby s prior)
          (abort_session s) p identity
          (aborted_each-Among (expired now) st.store.sessions s.id s prior found due) stored seat
          from_prolific,
    )
