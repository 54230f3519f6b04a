-- ===== src/Sessions/Run/Swept.antt =====
-- The sessions under the sweep of disconnected participants.
use Prim.Native.Nat.{ℕ}
use gdm_platform.Common.{Text-eq, List, [], ◌∷◌, inl, inr, Option-cases}
use gdm_platform.Shared.Models.{ProlificArrival}
use gdm_platform.Participation.Store.{terminate_stale_prolific_participation}
use gdm_platform.Store.Life.Growth.{IsFiled, Grown, Grown-refl, Grown-trans}
use gdm_platform.Sessions.State.{
  ServiceState, Environment, with_participation, Result, ok, failed, Result-cases,
}
use gdm_platform.Sessions.Matchmaking.{find_own_session}
use gdm_platform.Sessions.Disconnection.{
  Disconnected, disconnection, disconnected_reason, sweep_arrival, sweep_arrivals, unless_failed,
  sweep_disconnected_participants,
}
use gdm_platform.Sessions.Run.Ended.{leave_if_seated-Grown}

module _ (env : Environment) {N : Type 0} where
  sweep_arrival-Grown :
      (cutoff now : ℕ) (arrival : ProlificArrival) (done : Disconnected N)
      → IsFiled done.state.store.sessions
      → Grown done.state.store.sessions
          (sweep_arrival env cutoff now arrival done).0.state.store.sessions
  unfolding sweep_arrival
  sweep_arrival-Grown cutoff now arrival done w =
      let (participation, row) =
        terminate_stale_prolific_participation done.state.participation arrival.identity cutoff
          (disconnection env arrival now) now in
      elim (Option-cases row) [
        | inl unclaimed ↦ rw (unclaimed, sweep_arrival) (Grown-refl done.state.store.sessions w)
        | inr (r, claimed) ↦
            elim (Result-cases (find_own_session done.state.store arrival.identity)) [
              | inl (e, p) ↦
                  rw (claimed, sweep_arrival)
                    (rw (p, sweep_arrival) (Grown-refl done.state.store.sessions w))
              | inr (existing, p) ↦
                  rw (claimed, sweep_arrival)
                    (rw (p, sweep_arrival)
                      (leave_if_seated-Grown env (with_participation done.state participation)
                        existing disconnected_reason now arrival.identity w p))
            ]
      ]

  unless_failed-Grown :
      (f : Disconnected N → Disconnected N × Result (Unit {0}))
      → ((d : Disconnected N)
          → IsFiled d.state.store.sessions
          → Grown d.state.store.sessions (f d).0.state.store.sessions)
      → (d : Disconnected N) (x : Disconnected N × Result (Unit {0}))
      → Grown d.state.store.sessions x.0.state.store.sessions
      → Grown d.state.store.sessions (unless_failed x f).0.state.store.sessions
  unless_failed-Grown f h d (e, ok _) g = Grown-trans g (h e g.filed)
  unless_failed-Grown f h d (e, failed _) g = g

  sweep_arrivals-Grown :
      (cutoff now : ℕ) (arrivals : List ProlificArrival) (done : Disconnected N)
      → IsFiled done.state.store.sessions
      → Grown done.state.store.sessions
          (sweep_arrivals env cutoff now arrivals done).0.state.store.sessions
  unfolding sweep_arrivals
  sweep_arrivals-Grown cutoff now [] done w = Grown-refl done.state.store.sessions w
  sweep_arrivals-Grown cutoff now (a ∷ as_) done w =
      unless_failed-Grown (sweep_arrivals env cutoff now as_)
        (λ d v. sweep_arrivals-Grown cutoff now as_ d v) done (sweep_arrival env cutoff now a done)
        (sweep_arrival-Grown cutoff now a done w)

  pub sweep_disconnected-Grown :
      (st : ServiceState N) (now : ℕ)
      → IsFiled st.store.sessions
      → Grown st.store.sessions (sweep_disconnected_participants env st now).0.state.store.sessions
  unfolding sweep_disconnected_participants
  sweep_disconnected-Grown st now w =
      sweep_arrivals-Grown _ now _ (record { state = st; kicks = []; claimed = [] }) w
