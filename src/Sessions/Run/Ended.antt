-- ===== src/Sessions/Run/Ended.antt =====
-- The sessions under the departures of sessions.service.ts.
use mathlib.Core.Path.{subst}
use Prim.Native.Nat.{ℕ}
use gdm_platform.Common.{
  Text, Text-eq, List, [], ◌∷◌, Option, none, some, Bool, get, or_else, ◌≡◌, refl, sym, ap, ◌∙◌,
  inl, inr, Bool-cases, Option-cases, find, Among,
}
use gdm_platform.Shared.Models.{
  Session, SessionStatus, Participant, ProlificIdentity, waiting, provisioning, running, completed,
  aborted,
}
use gdm_platform.Participation.Compensation.{SelfOutcome}
use gdm_platform.Participation.Endings.{EndedOutcome}
use gdm_platform.Store.State.{StoreState}
use gdm_platform.Store.Rounds.{all_memory_sessions}
use gdm_platform.Store.Lookup.{find_seat, find_by_prolific_session}
use gdm_platform.Store.Lifecycle.{update_session_lifecycle}
use gdm_platform.Store.Life.{◌⟶*◌, fail, ⟶*-one}
use gdm_platform.Store.Life.Growth.{IsFiled, Grown, Grown-refl, Grown-to, get_of_among}
use gdm_platform.Store.Life.Operations.{update-Grown}
use gdm_platform.Store.Life.Rosters.{remove_participant-Grown}
use gdm_platform.Sessions.State.{
  ServiceState, Environment, with_store, with_participation, Result, ok, failed, Result-cases,
}
use gdm_platform.Sessions.Matchmaking.{find_own_session, is_owner}
use gdm_platform.Sessions.Leaving.{
  aborted_patch, leave_session, leave_if_seated, left_reason, terminate_participation,
}
use gdm_platform.Sessions.Run.Closed.{terminate-store}

module _ {N : Type 0} where
  abbrev seat_or : Session N → Option (Session N × Participant N) → Session N
  seat_or t none = t
  seat_or t (some (s, _)) = s

  abbrev found_or_none :
      Result (Option (Session N × Participant N)) → Option (Session N × Participant N)
  found_or_none (failed e) = none
  found_or_none (ok o) = o

  find_seat-Among :
      (p : Session N → Participant N → Bool) (ss : List (Session N)) {s : Session N}
      {q : Participant N}
      → find_seat p ss ≡ some (s, q)
      → Among s ss
  find_seat-Among p [] h = cc
  find_seat-Among p (t ∷ ss) {s} {q} h = elim (Option-cases (find (p t) t.participants)) [
    | inl nobody ↦ inr (find_seat-Among p ss (rw (nobody, find_seat) at h))
    | inr (r, found) ↦ let e = rw (found, find_seat) at h in inl (ap (seat_or t) (sym e))
  ]

  -- The session in which a submission holds a seat is stored.
  pub own_session_stored :
      (st : StoreState N) (identity : ProlificIdentity) {s : Session N} {p : Participant N}
      → IsFiled st.sessions
      → find_own_session st identity ≡ ok (some (s, p))
      → get s.id st.sessions ≡ some s
  unfolding find_own_session find_by_prolific_session
  own_session_stored st identity {s} {p} w h =
      elim (Option-cases (find_by_prolific_session st identity)) [
        | inl nobody ↦ cc (rw (nobody, find_own_session) at h)
        | inr ((t, q), found) ↦ elim (Bool-cases (is_owner identity q.prolific)) [
          | inl own ↦
              let e = rw own at (rw (found, find_own_session) at h) in
              let same : find_by_prolific_session st identity ≡ some (s, p) =
                found ∙ ap found_or_none e in
              get_of_among st.sessions s w (find_seat-Among _ (all_memory_sessions st) same)
          | inr other ↦ cc (rw other at (rw (found, find_own_session) at h))
        ]
      ]

module _ (env : Environment) {N : Type 0} where
  -- A group that is still provisioning is aborted.
  abort_claimed-store :
      (st : ServiceState N) (s : Session N) (p : Participant N) (reason : Text) (now : ℕ)
      → s.status ≡ provisioning
      → (leave_session env st s p reason now).state.store
        ≡ or_else (update_session_lifecycle st.store s.id aborted_patch) st.store
  unfolding leave_session
  abort_claimed-store st s p reason now e =
      elim (Option-cases (update_session_lifecycle st.store s.id aborted_patch)) [
        | inl missing ↦ rw (e, leave_session) (rw (missing, leave_session) refl)
        | inr (store, found) ↦
            rw (e, leave_session)
              (rw (found, leave_session)
                (terminate-store env (with_store st store) s.id EndedOutcome.participant_dropout
                  reason now))
      ]

  pub leave_session-Grown :
      (st : ServiceState N) (s : Session N) (p : Participant N) (reason : Text) (now : ℕ)
      → IsFiled st.store.sessions
      → get s.id st.store.sessions ≡ some s
      → Grown st.store.sessions (leave_session env st s p reason now).state.store.sessions
  unfolding leave_session
  leave_session-Grown st s p reason now w found = go s.status refl
    where
      go :
          (t : SessionStatus)
          → s.status ≡ t
          → Grown st.store.sessions (leave_session env st s p reason now).state.store.sessions
      go waiting e = rw (e, leave_session) (remove_participant-Grown st.store s.id p.id w)
      go running e = rw (e, leave_session) (Grown-refl st.store.sessions w)
      go completed e = rw (e, leave_session) (Grown-refl st.store.sessions w)
      go aborted e = rw (e, leave_session) (Grown-refl st.store.sessions w)
      go provisioning e =
          let left = abort_claimed-store st s p reason now e in
          Grown-to (ap (λ (x : StoreState N). x.sessions) (sym left)) (
            update-Grown st.store s.id aborted_patch w (λ t q.
              let same : s ≡ t = ap (λ o. or_else o s) (sym found ∙ q) in
              subst (λ x. x ⟶* aborted) (sym e ∙ ap (λ (x : Session N). x.status) same)
                (⟶*-one fail)))

  pub leave_if_seated-Grown :
      (st : ServiceState N) (existing : Option (Session N × Participant N)) (reason : Text)
      (now : ℕ) (identity : ProlificIdentity)
      → IsFiled st.store.sessions
      → find_own_session st.store identity ≡ ok existing
      → Grown st.store.sessions (leave_if_seated env existing reason now st).state.store.sessions
  leave_if_seated-Grown st none reason now identity w h = Grown-refl st.store.sessions w
  leave_if_seated-Grown st (some (s, p)) reason now identity w h =
      leave_session-Grown st s p reason now w (own_session_stored st.store identity w h)

  pub terminate_participation-Grown :
      (st : ServiceState N) (identity : ProlificIdentity) (outcome : SelfOutcome) (reason : Text)
      (now : ℕ)
      → IsFiled st.store.sessions
      → Grown st.store.sessions
          (terminate_participation env st identity outcome reason now).0.state.store.sessions
  unfolding terminate_participation
  terminate_participation-Grown st identity outcome reason now w =
      elim (Result-cases (find_own_session st.store identity)) [
        | inl (e, p) ↦ rw (p, terminate_participation) (Grown-refl st.store.sessions w)
        | inr (existing, p) ↦
            rw (p, terminate_participation)
              (leave_if_seated-Grown (with_participation st _) existing left_reason now identity w
                p)
      ]
