-- ===== src/Sessions/Sweep/Ended.antt =====
-- Whoever gets an ending keeps it, and every participant of a listed lobby gets one.
use Prim.Native.Nat.{ℕ}
use mathlib.Core.Path.{subst}
use gdm_platform.Common.{
  Text, Text-eq, List, [], ◌∷◌, Option, none, some, true, get, get-put, ==_refl, is_some, Among,
  ◌≡◌, refl, sym, ap, ◌∙◌, Bool-cases, Option-cases, inl, inr,
}
use gdm_platform.Shared.Timestamp.{Timestamp}
use gdm_platform.Shared.Models.{Session, Participant, ProlificIdentity, ProlificArrival}
use gdm_platform.Participation.Endings.{EndedOutcome}
use gdm_platform.Participation.Rules.{Termination, arrival_key, terminate_arrival}
use gdm_platform.Participation.State.{
  ParticipationState, get_prolific_arrival, record_prolific_arrival,
}
use gdm_platform.Participation.Store.{terminate_prolific_participation}
use gdm_platform.Participation.Run.Growth.{Grows, Grows-refl, Grows-trans, record-Grows}
use gdm_platform.Participation.Run.Finality.{terminates-Grows}
use gdm_platform.Store.State.{StoreState}
use gdm_platform.Store.Lookup.{get_session}
use gdm_platform.Store.Lifecycle.{AbortedLobby}
use gdm_platform.Sessions.State.{ServiceState, Environment, with_participation}
use gdm_platform.Sessions.Sweep.{
  has_outcome, closing, lobby_outcome, lobby_reason, terminate_participant, terminate_each,
  terminate_session_participants, terminate_expired,
}

-- The submission has an arrival with an outcome.
abbrev pub HasEnded : ParticipationState → ProlificIdentity → Type 0
HasEnded st identity =
    (a : ProlificArrival) × (get (arrival_key identity) st.prolific_arrivals ≡ some a)
    × (is_some a.outcome ≡ true)

Grows-HasEnded :
    (st st' : ParticipationState) (identity : ProlificIdentity)
    → Grows st st'
    → HasEnded st identity
    → HasEnded st' identity
Grows-HasEnded st st' identity g (a, found, ended) =
    let (b, found', evolved) = g (arrival_key identity) a found in
    (b, found', ap is_some (evolved.final ended).outcome ∙ ended)

has_outcome-cases :
    (o : Option ProlificArrival)
    → has_outcome o ≡ true
    → (a : ProlificArrival) × (o ≡ some a) × (is_some a.outcome ≡ true)
has_outcome-cases none h = cc
has_outcome-cases (some a) h = (a, refl, h)

terminates-HasEnded :
    (st : ParticipationState) (identity : ProlificIdentity) (t : Termination) (now : ℕ)
    → HasEnded (terminate_prolific_participation st identity t now).0 identity
unfolding terminate_prolific_participation terminate_arrival
terminates-HasEnded st identity t now =
    let r = record_prolific_arrival st identity now in
    let (grown, found) = record-Grows st identity now in
    elim (Bool-cases (is_some r.1.outcome)) [
      | inl ended ↦ rw (ended, terminate_prolific_participation) (r.1, found, ended)
      | inr open_ ↦
          rw (open_, terminate_prolific_participation)
            (
              terminate_arrival r.1 now t,
              get-put (arrival_key identity) (arrival_key identity) (terminate_arrival r.1 now t)
                    r.0.prolific_arrivals
                  ∙ rw (==_refl (arrival_key identity)) refl,
              refl,
            )
    ]

module _ (env : Environment) (created_at : Timestamp) (outcome : EndedOutcome) (reason : Text)
    (now : ℕ) where
  terminate_participant-Grows :
      (prolific : Option ProlificIdentity) (st : ParticipationState)
      → Grows st (terminate_participant env created_at outcome reason now prolific st)
  unfolding terminate_participant get_prolific_arrival
  terminate_participant-Grows none st = Grows-refl st
  terminate_participant-Grows (some identity) st =
      elim (Bool-cases (has_outcome (get_prolific_arrival st identity))) [
        | inl ended ↦ rw (ended, terminate_participant) (Grows-refl st)
        | inr open_ ↦
            rw (open_, terminate_participant)
              (terminates-Grows st identity
                (closing env created_at outcome reason now (get_prolific_arrival st identity)) now)
      ]

  terminate_participant-HasEnded :
      (identity : ProlificIdentity) (st : ParticipationState)
      → HasEnded
          (terminate_participant env created_at outcome reason now (some identity) st)
          identity
  unfolding terminate_participant get_prolific_arrival
  terminate_participant-HasEnded identity st =
      elim (Bool-cases (has_outcome (get_prolific_arrival st identity))) [
        | inl ended ↦ rw (ended, terminate_participant) (has_outcome-cases _ ended)
        | inr open_ ↦
            rw (open_, terminate_participant)
              (terminates-HasEnded st identity
                (closing env created_at outcome reason now (get_prolific_arrival st identity)) now)
      ]

  module _ {N : Type 0} where
    terminate_each-Grows :
        (ps : List (Participant N)) (st : ParticipationState)
        → Grows st (terminate_each env created_at outcome reason now ps st)
    unfolding terminate_each
    terminate_each-Grows [] st = Grows-refl st
    terminate_each-Grows (p ∷ ps) st =
        let st' = terminate_participant env created_at outcome reason now p.prolific st in
        Grows-trans st st' (terminate_each env created_at outcome reason now ps st')
          (terminate_participant-Grows p.prolific st) (terminate_each-Grows ps st')

    terminate_each-HasEnded :
        (ps : List (Participant N)) (st : ParticipationState) (p : Participant N)
        (identity : ProlificIdentity)
        → Among p ps
        → p.prolific ≡ some identity
        → HasEnded (terminate_each env created_at outcome reason now ps st) identity
    unfolding terminate_each
    terminate_each-HasEnded [] st p identity a e = elim a [ ]
    terminate_each-HasEnded (q ∷ ps) st p identity (inr a) e =
        terminate_each-HasEnded ps
          (terminate_participant env created_at outcome reason now q.prolific st) p identity a e
    terminate_each-HasEnded (q ∷ ps) st p identity (inl same) e =
        let run = terminate_participant env created_at outcome reason now in
        let own : q.prolific ≡ some identity =
          ap (λ (x : Participant N). x.prolific) (sym same) ∙ e in
        Grows-HasEnded (run q.prolific st)
          (terminate_each env created_at outcome reason now ps (run q.prolific st)) identity
          (terminate_each-Grows ps (run q.prolific st))
          (subst (λ o. HasEnded (run o st) identity) (sym own)
            (terminate_participant-HasEnded identity st))

module _ (env : Environment) {N : Type 0} where
  -- A session's participants get their ending in the store of participations only.
  session_end :
      (st : ServiceState N) (session : Session N) (id : Text) (outcome : EndedOutcome)
      (reason : Text) (now : ℕ)
      → get id st.store.sessions ≡ some session
      → terminate_session_participants env st id outcome reason now
        ≡ with_participation st (
            terminate_each env session.created_at outcome reason now session.participants
              st.participation)
  unfolding terminate_session_participants get_session
  session_end st session id outcome reason now found =
      rw (found, terminate_session_participants) refl

  pub terminate_session-Grows :
      (st : ServiceState N) (id : Text) (outcome : EndedOutcome) (reason : Text) (now : ℕ)
      → ((terminate_session_participants env st id outcome reason now).store ≡ st.store)
        × Grows st.participation
            (terminate_session_participants env st id outcome reason now).participation
  unfolding terminate_session_participants get_session
  terminate_session-Grows st id outcome reason now =
      elim (Option-cases (get id st.store.sessions)) [
        | inl unknown ↦
            rw (unknown, terminate_session_participants) (refl, Grows-refl st.participation)
        | inr (session, found) ↦
            rw (found, terminate_session_participants)
              (
                refl,
                terminate_each-Grows env session.created_at outcome reason now session.participants
                    st.participation,
              )
      ]

  module _ (now : ℕ) where
    ended_by : AbortedLobby → ServiceState N → ServiceState N
    ended_by lobby st =
        terminate_session_participants env st lobby.id (lobby_outcome lobby.prior_status)
          (lobby_reason lobby.prior_status) now

    pub terminate_expired-Grows :
        (lobbies : List AbortedLobby) (st : ServiceState N)
        → ((terminate_expired env now lobbies st).store ≡ st.store)
          × Grows st.participation (terminate_expired env now lobbies st).participation
    unfolding terminate_expired ended_by
    terminate_expired-Grows [] st = (refl, Grows-refl st.participation)
    terminate_expired-Grows (lobby ∷ lobbies) st =
        let st' = ended_by lobby st in
        let (same, grown) =
          terminate_session-Grows st lobby.id (lobby_outcome lobby.prior_status)
            (lobby_reason lobby.prior_status) now in
        let (same', grown') = terminate_expired-Grows lobbies st' in
        (
          same' ∙ same,
          Grows-trans st.participation st'.participation
              (terminate_expired env now lobbies st').participation grown grown',
        )

    pub terminate_expired-HasEnded :
        (lobbies : List AbortedLobby) (st : ServiceState N) (lobby : AbortedLobby)
        (session : Session N) (p : Participant N) (identity : ProlificIdentity)
        → Among lobby lobbies
        → get lobby.id st.store.sessions ≡ some session
        → Among p session.participants
        → p.prolific ≡ some identity
        → HasEnded (terminate_expired env now lobbies st).participation identity
    unfolding terminate_expired ended_by
    terminate_expired-HasEnded [] st lobby session p identity a found seat e = elim a [ ]
    terminate_expired-HasEnded (other ∷ lobbies) st lobby session p identity (inr a) found seat e =
        let st' = ended_by other st in
        let (same, _) =
          terminate_session-Grows st other.id (lobby_outcome other.prior_status)
            (lobby_reason other.prior_status) now in
        terminate_expired-HasEnded lobbies st' lobby session p identity a
          (ap (λ (x : StoreState N). get lobby.id x.sessions) same ∙ found) seat e
    terminate_expired-HasEnded (other ∷ lobbies) st lobby session p identity (inl same) found seat
          e =
        let found' : get other.id st.store.sessions ≡ some session =
          ap (λ (x : AbortedLobby). get x.id st.store.sessions) (sym same) ∙ found in
        let st' = ended_by other st in
        let (_, grown) = terminate_expired-Grows lobbies st' in
        Grows-HasEnded st'.participation (terminate_expired env now lobbies st').participation
          identity grown
          (subst (λ (x : ServiceState N). HasEnded x.participation identity)
            (sym (
              session_end st session other.id (lobby_outcome other.prior_status)
                (lobby_reason other.prior_status) now found'))
            (terminate_each-HasEnded env session.created_at (lobby_outcome other.prior_status)
              (lobby_reason other.prior_status) now session.participants st.participation p identity
              seat e))
