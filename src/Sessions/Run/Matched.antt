-- ===== src/Sessions/Run/Matched.antt =====
-- The sessions under the joins of participants.
use mathlib.Core.Path.{subst}
use Prim.Native.Nat.{ℕ, suc, ◌<◌}
use gdm_platform.Common.{
  Text-eq, List, [], ◌∷◌, ◌++◌, Option, none, some, true, ◌&&◌, get, put, get-put, put-put, ==_refl,
  length, any, ◌≡◌, refl, sym, ap, ◌∙◌, arith, Bool-cases, Option-cases, inl, inr,
  get-map_values_none, is_some,
}
use gdm_platform.Shared.Number.{Number}
use gdm_platform.Shared.Models.{Session, Participant, Condition}
use gdm_platform.Store.State.{StoreState}
use gdm_platform.Store.Rounds.{is_aborted, current_round}
use gdm_platform.Store.Lookup.{TaskMode, is_waiting, find_forming}
use gdm_platform.Store.Lookup.Oldest.{find_forming-IsOldest}
use gdm_platform.Store.Seats.{has_id, change_stored, with_participant, add_participant}
use gdm_platform.Store.Lifecycle.{expired, abort_if_due, abort_lobbies, create_forming}
use gdm_platform.Store.Life.Growth.{
  IsFiled, Grown, Grown-refl, Grown-trans, Grown-from, Grown-to, put-Grown, new-Grown, get_of_among,
}
use gdm_platform.Store.Life.Rosters.{Follows-roster}
use gdm_platform.Sessions.State.{
  ServiceState, Environment, with_store, Result, Result-cases, ok, failed,
}
use gdm_platform.Sessions.Matchmaking.{
  OpenSessionRequest, Randoms, new_participant, take_seat, open_seat, seat_in_group, rejoin,
  find_existing, with_task_mode, reserve_seat,
}
use gdm_platform.Sessions.Assignment.{assign_condition}
use gdm_platform.Sessions.Sweep.{sweep_expired_waiting_rooms}
use gdm_platform.Sessions.Run.Closed.{current_round-sessions, sweep-store, sweep-Grown}

length-snoc {ℓ} : {A : Type ℓ} (xs : List A) (x : A) → length (xs ++ x ∷ []) ≡ suc (length xs)
length-snoc [] x = refl
length-snoc (y ∷ xs) x = omega (arith, length-snoc xs x)

any-has_id_snoc :
    {N : Type 0} (ps : List (Participant N)) (p : Participant N)
    → any (has_id p.id) (ps ++ p ∷ []) ≡ true
any-has_id_snoc [] p = rw (==_refl p.id) refl
any-has_id_snoc (q ∷ ps) p = ground (arith, any-has_id_snoc ps p)

module _ {N : Type 0} (req : OpenSessionRequest) (randoms : Randoms) where
  -- The stored session after `participants.push`; `addParticipant` finds the seat there.
  abbrev pub seated : Session N → Session N
  seated s = record s { participants = s.participants ++ new_participant req randoms ∷ [] }

  pub take_seat-sessions :
      (st : ServiceState N) (s : Session N)
      → (take_seat req randoms st s).0.store.sessions ≡ put s.id (seated s) st.store.sessions
  unfolding take_seat add_participant change_stored with_participant
  take_seat-sessions st s =
      let there = any-has_id_snoc s.participants (new_participant req randoms) in
      let pushed = put s.id (seated s) st.store.sessions in
      let here : get s.id pushed ≡ some (seated s) =
        get-put s.id s.id (seated s) st.store.sessions ∙ rw (==_refl s.id) refl in
      rw (here, take_seat) (rw there (put-put s.id (seated s) (seated s) st.store.sessions))

  -- A lobby with a free seat takes a participant.
  take_seat-Grown :
      (st : ServiceState N) (s : Session N)
      → IsFiled st.store.sessions
      → get s.id st.store.sessions ≡ some s
      → is_waiting s.status ≡ true
      → length s.participants < s.condition.group_size
      → Grown st.store.sessions (take_seat req randoms st s).0.store.sessions
  take_seat-Grown st s w found lobby free = Grown-to (sym (take_seat-sessions st s)) (
      put-Grown st.store.sessions s.id s (seated s) w found (
        Follows-roster s (seated s).participants
          (inr (lobby, omega (arith, length-snoc s.participants (new_participant req randoms))))))

rejoin-store :
    {N : Type 0} (req : OpenSessionRequest) (st : ServiceState N) (s : Session N)
    (p : Participant N)
    → (rejoin req st s p).0.store ≡ st.store
unfolding rejoin
rejoin-store req st s p = elim (Bool-cases (is_aborted s.status && is_some req.prolific)) [
  | inl over ↦ rw over refl
  | inr open_ ↦ rw open_ refl
]

module _ (env : Environment) {N : Type 0} ⦃n : Number N⦄ (req : OpenSessionRequest)
    (randoms : Randoms) (now : ℕ) where
  create_forming-store :
      (st : StoreState N) (condition : Condition N)
      → (create_forming st env.waiting_timeout_minutes randoms.session_id randoms.pick_index
          condition now).0.sessions
        ≡ put randoms.session_id
            (create_forming st env.waiting_timeout_minutes randoms.session_id randoms.pick_index
              condition now).1
            st.sessions
  unfolding create_forming
  create_forming-store st condition = ap (put randoms.session_id _) (current_round-sessions st now)

  open_seat-Grown :
      (task_mode : Option TaskMode) (st : ServiceState N) (store : StoreState N)
      (condition : Condition N)
      → IsFiled store.sessions
      → get randoms.session_id store.sessions ≡ none
      → Grown store.sessions
          (open_seat env req randoms now task_mode st (store, ok condition)).0.store.sessions
  unfolding open_seat
  open_seat-Grown task_mode st store condition w fresh =
      let made =
        create_forming store env.waiting_timeout_minutes randoms.session_id randoms.pick_index
          (with_task_mode task_mode condition) now in
      let stored = create_forming-store store (with_task_mode task_mode condition) in
      let both =
        take_seat-sessions req randoms (with_store st made.0) made.1
        ∙ ap (put randoms.session_id (seated req randoms made.1)) stored
        ∙ put-put randoms.session_id (seated req randoms made.1) made.1 store.sessions in
      Grown-to (sym both)
        (new-Grown store.sessions randoms.session_id (seated req randoms made.1) w fresh refl)

  open_seat_any-Grown :
      (task_mode : Option TaskMode) (st : ServiceState N)
      (assigned : StoreState N × Result (Condition N))
      → IsFiled assigned.0.sessions
      → get randoms.session_id assigned.0.sessions ≡ none
      → Grown assigned.0.sessions
          (open_seat env req randoms now task_mode st assigned).0.store.sessions
  unfolding open_seat
  open_seat_any-Grown task_mode st (store, failed e) w fresh = Grown-refl store.sessions w
  open_seat_any-Grown task_mode st (store, ok c) w fresh =
      open_seat-Grown task_mode st store c w fresh

  seat_in_group-Grown :
      (task_mode : Option TaskMode) (st : ServiceState N)
      → IsFiled st.store.sessions
      → get randoms.session_id st.store.sessions ≡ none
      → Grown st.store.sessions (seat_in_group env req randoms now task_mode st).0.store.sessions
  unfolding seat_in_group find_forming assign_condition
  seat_in_group-Grown task_mode st w fresh =
      elim (Option-cases (find_forming st.store req.condition_id task_mode now).1) [
        | inl nobody ↦
            rw (nobody, seat_in_group)
              (Grown-from again (
                open_seat_any-Grown task_mode (with_store st here)
                  (assign_condition here req.condition_id now) (subst IsFiled (sym again) w)
                  (ap (get randoms.session_id) again ∙ fresh)))
        | inr (s, found) ↦
            let (stored, lobby, r, free, o) =
              find_forming-IsOldest st.store req.condition_id task_mode now s found in
            let filed : IsFiled here.sessions = subst IsFiled (sym same) w in
            rw (found, seat_in_group)
              (Grown-from same (
                take_seat-Grown req randoms (with_store st here) s filed
                  (get_of_among here.sessions s filed stored) lobby free))
      ]
    where
      here : StoreState N
      here = (current_round st.store now).0

      same : here.sessions ≡ st.store.sessions
      same = current_round-sessions st.store now

      again : (current_round here now).0.sessions ≡ st.store.sessions
      again = current_round-sessions here now ∙ same

  -- The sweep brings no new session.
  still_fresh :
      (st : ServiceState N)
      → get randoms.session_id st.store.sessions ≡ none
      → get randoms.session_id (sweep_expired_waiting_rooms env st now).0.store.sessions ≡ none
  unfolding abort_lobbies
  still_fresh st fresh =
      ap (λ (x : StoreState N). get randoms.session_id x.sessions) (sweep-store env st now)
      ∙ get-map_values_none (abort_if_due (expired now)) randoms.session_id st.store.sessions fresh

  pub reserve_seat-Grown :
      (task_mode : Option TaskMode) (st : ServiceState N)
      → IsFiled st.store.sessions
      → get randoms.session_id st.store.sessions ≡ none
      → Grown st.store.sessions (reserve_seat env req randoms now task_mode st).0.store.sessions
  unfolding reserve_seat
  reserve_seat-Grown task_mode st w fresh =
      let swept = (sweep_expired_waiting_rooms env st now).0 in
      let first : Grown st.store.sessions swept.store.sessions = sweep-Grown env st now w in
      elim (Result-cases (find_existing swept.store req)) [
        | inl (e, p) ↦ rw (p, reserve_seat) first
        | inr (none, p) ↦
            rw (p, reserve_seat)
              (Grown-trans first
                (seat_in_group-Grown task_mode swept first.filed (still_fresh st fresh)))
        | inr (some (s, q), p) ↦
            rw (p, reserve_seat)
              (Grown-to (ap (λ (x : StoreState N). x.sessions) (sym (rejoin-store req swept s q)))
                first)
      ]
