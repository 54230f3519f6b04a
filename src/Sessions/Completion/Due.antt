-- ===== src/Sessions/Completion/Due.antt =====
-- Whom the service hands the compensation link, and what is stored by then.
use Prim.Native.Nat.{ℕ}
use mathlib.Core.Path.{subst}
use gdm_platform.Common.{
  Text, Text-eq, none, some, true, false, get, get-put, find, is_some, ==_refl, ◌≡◌, refl, sym, ap,
  ◌∙◌, ◌⊎◌, Bool-cases, Option-cases, inl, inr,
}
use gdm_platform.Shared.Models.{
  Session, Participant, ProlificIdentity, ProlificArrival, ParticipationOutcome,
  ParticipationOutcomeRecord,
}
use gdm_platform.Participation.Rules.{arrival_key}
use gdm_platform.Participation.State.{ParticipationState, new_arrival, record_prolific_arrival}
use gdm_platform.Participation.Store.{
  complete_arrival, complete_prolific_participation, get_participation_outcome, outcome_record,
}
use gdm_platform.Participation.Run.Growth.{record-Grows}
use gdm_platform.Store.Lookup.{get_session}
use gdm_platform.Store.Seats.{has_id}
use gdm_platform.Sessions.State.{ServiceState, ok}
use gdm_platform.Sessions.Completion.{
  CompleteParticipantResponse, has_ended, ended_otherwise, completed_participation, complete_seat,
  complete_participant,
}

-- The submission has an arrival that is completed.
abbrev pub IsCompleted : ParticipationState → ProlificIdentity → Type 0
IsCompleted st identity =
    (a : ProlificArrival) × (get (arrival_key identity) st.prolific_arrivals ≡ some a)
    × (a.outcome ≡ some ParticipationOutcome.completed)

only_completed :
    (row : ParticipationOutcomeRecord)
    → ended_otherwise (some row) ≡ false
    → is_some row.outcome ≡ true
    → row.outcome ≡ some ParticipationOutcome.completed
only_completed row h e = elim (Option-cases row.outcome) [
  | inl open_ ↦ cc
  | inr (o, q) ↦ q ∙ ap some (go o (rw (q, ended_otherwise) at h))
]
  where
    go :
        (o : ParticipationOutcome)
        → (elim o [ ParticipationOutcome.completed ↦ false | _ ↦ true ]) ≡ false
        → o ≡ ParticipationOutcome.completed
    go ParticipationOutcome.completed h = refl
    go ParticipationOutcome.declined_consent h = cc
    go ParticipationOutcome.ineligible h = cc
    go ParticipationOutcome.voluntary_withdrawal h = cc
    go ParticipationOutcome.connection_timeout h = cc
    go ParticipationOutcome.unmatched h = cc
    go ParticipationOutcome.technical_failure h = cc
    go ParticipationOutcome.participant_dropout h = cc
    go ParticipationOutcome.group_aborted h = cc

outcome_record-outcome :
    (st : ParticipationState) (id : Text) (a : ProlificArrival)
    → (outcome_record st id a).outcome ≡ a.outcome
unfolding outcome_record
outcome_record-outcome st id a = elim (Option-cases (get id st.memory_prolific_actions)) [
  | inl without ↦ rw (without, outcome_record) refl
  | inr (action, with_) ↦ rw (with_, outcome_record) refl
]

-- An arrival that `hasEnded` lets pass has no outcome or is completed.
recorded_completed :
    (st : ParticipationState) (identity : ProlificIdentity) (now : ℕ)
    → has_ended st (some identity) ≡ false
    → is_some (record_prolific_arrival st identity now).1.outcome ≡ true
    → (record_prolific_arrival st identity now).1.outcome ≡ some ParticipationOutcome.completed
unfolding record_prolific_arrival get_participation_outcome new_arrival
recorded_completed st identity now h e =
    elim (Option-cases (get (arrival_key identity) st.prolific_arrivals)) [
      | inl unknown ↦ cc (rw (unknown, record_prolific_arrival) at e)
      | inr (a, found) ↦
          let row = outcome_record st (arrival_key identity) a in
          let same = outcome_record-outcome st (arrival_key identity) a in
          let h' : ended_otherwise (some row) ≡ false =
            rw (found, has_ended, get_participation_outcome) at h in
          let e' : is_some a.outcome ≡ true = rw (found, record_prolific_arrival) at e in
          rw (found, record_prolific_arrival)
            (sym same ∙ only_completed row h' (ap is_some same ∙ e'))
    ]

completes-IsCompleted :
    (st : ParticipationState) (identity : ProlificIdentity) (now : ℕ)
    → has_ended st (some identity) ≡ false
    → IsCompleted (complete_prolific_participation st identity now).0 identity
unfolding complete_prolific_participation complete_arrival
completes-IsCompleted st identity now h =
    let r = record_prolific_arrival st identity now in
    let (grown, found) = record-Grows st identity now in
    let key = arrival_key identity in
    elim (Bool-cases (is_some r.1.outcome)) [
      | inl ended ↦
          rw (ended, complete_prolific_participation)
            (r.1, found, recorded_completed st identity now h ended)
      | inr open_ ↦
          rw (open_, complete_prolific_participation)
            (
              complete_arrival r.1 now,
              get-put key key (complete_arrival r.1 now) r.0.prolific_arrivals
                  ∙ rw (==_refl key) refl,
              refl,
            )
    ]

module _ {N : Type 0} (st : ServiceState N) (session_id participant_id : Text) (now : ℕ) where
  -- What must be true for the link, and what the store of participations says afterwards.
  pub record Due : Type 0 where
    pub session : Session N
    pub participant : Participant N
    pub stored : get session_id st.store.sessions ≡ some session
    pub seated : find (has_id participant_id) session.participants ≡ some participant
    pub surveyed : is_some participant.exit_survey ≡ true
    pub settled :
        (participant.prolific ≡ none)
        ⊎ ((identity : ProlificIdentity) × (participant.prolific ≡ some identity)
            × IsCompleted
                (complete_participant st session_id participant_id now).0.participation
                identity)

-- A participant is told that they have completed the study only if they sit in the session, their
-- exit survey is stored and their submission has not ended otherwise; and then the arrival of their
-- submission, if they came from Prolific, is completed.
pub complete_participant-Due :
    {N : Type 0} (st : ServiceState N) (session_id participant_id : Text) (now : ℕ)
    (response : CompleteParticipantResponse)
    → (complete_participant st session_id participant_id now).1 ≡ ok response
    → Due st session_id participant_id now
unfolding complete_participant complete_seat get_session
complete_participant-Due st session_id participant_id now response h =
    elim (Option-cases (get session_id st.store.sessions)) [
      | inl missing ↦ cc (rw (missing, complete_participant) at h)
      | inr (s, found) ↦
          let h1 = rw (found, complete_participant) at h in
          elim (Option-cases (find (has_id participant_id) s.participants)) [
            | inl absent ↦ cc (rw absent at h1)
            | inr (p, there) ↦
                let h2 = rw there at h1 in
                elim (Bool-cases (is_some p.exit_survey)) [
                  | inr unfilled ↦ cc (rw unfilled at h2)
                  | inl filled ↦
                      let h3 = rw filled at h2 in
                      elim (Bool-cases (has_ended st.participation p.prolific)) [
                        | inl ended ↦ cc (rw ended at h3)
                        | inr open_ ↦
                            let kept : (complete_participant st session_id participant_id
                                  now).0.participation
                                ≡ completed_participation p.prolific now st.participation =
                              rw (found, complete_participant)
                                (rw there (rw filled (rw open_ refl))) in
                            record {
                              session = s;
                              participant = p;
                              stored = found;
                              seated = there;
                              surveyed = filled;
                              settled = elim (Option-cases p.prolific) [
                                | inl direct ↦ inl direct
                                | inr (identity, q) ↦ inr (
                                  identity,
                                  q,
                                  subst (λ x. IsCompleted x identity)
                                      (sym (
                                        kept
                                        ∙ ap (λ o. completed_participation o now st.participation)
                                            q))
                                      (completes-IsCompleted st.participation identity now
                                        (ap (has_ended st.participation) (sym q) ∙ open_)),
                                )
                              ];
                            }
                      ]
                ]
          ]
    ]
