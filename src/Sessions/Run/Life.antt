-- ===== src/Sessions/Run/Life.antt =====
-- The life of a session through any sequence of operations of the Session Manager.
use Prim.Native.Nat.{ℕ}
use gdm_platform.Common.{Text, Text-eq, List, [], ◌∷◌, some, get, ◌≡◌}
use gdm_platform.Shared.Number.{Number}
use gdm_platform.Shared.Models.{Session}
use gdm_platform.Store.Life.{Follows}
use gdm_platform.Store.Life.Growth.{IsFiled, Grown, Grown-refl, Grown-trans}
use gdm_platform.Store.Life.Rosters.{save_participant_survey-Grown}
use gdm_platform.Sessions.State.{ServiceState, Environment}
use gdm_platform.Sessions.Run.{
  Event, reaches, joins, starts_round, leaves, sweeps_lobbies, sweeps_disconnected, registers,
  provisions, completes, completes_participant, surveys, gives_feedback, checkpoints, finalizes,
  step, run, IsFresh, AllFresh,
}
use gdm_platform.Sessions.Run.Matched.{reserve_seat-Grown}
use gdm_platform.Sessions.Run.Closed.{do_start_round-Grown, sweep-Grown}
use gdm_platform.Sessions.Run.Ended.{terminate_participation-Grown}
use gdm_platform.Sessions.Run.Swept.{sweep_disconnected-Grown}
use gdm_platform.Sessions.Run.Finished.{
  complete_session-Grown, complete_participant-Grown, checkpoint_session-Grown,
  finalize_session-Grown, submit_debrief_feedback-Grown,
}
use gdm_platform.Sessions.Run.Opened.{ensure_provisioned-Grown, ensure_participant_access-Grown}

module _ (env : Environment) {N : Type 0} ⦃n : Number N⦄ where
  step-Grown :
      (st : ServiceState N) (now : ℕ) (event : Event N)
      → IsFiled st.store.sessions
      → IsFresh env st event
      → Grown st.store.sessions (step env st now event).store.sessions
  unfolding step
  step-Grown st now (reaches identity milestone) w f = Grown-refl st.store.sessions w
  step-Grown st now (joins req randoms task_mode) w f =
      reserve_seat-Grown env req randoms now task_mode st w f
  step-Grown st now (starts_round label) w f = do_start_round-Grown env st label now w
  step-Grown st now (leaves identity outcome reason) w f =
      terminate_participation-Grown env st identity outcome reason now w
  step-Grown st now sweeps_lobbies w f = sweep-Grown env st now w
  step-Grown st now sweeps_disconnected w f = sweep_disconnected-Grown env st now w
  step-Grown st now (registers participant creds) w f =
      ensure_participant_access-Grown st.store participant creds w
  step-Grown st now (provisions id answers) w f = ensure_provisioned-Grown answers st.store id now w
  step-Grown st now (completes id) w f = complete_session-Grown st id now w
  step-Grown st now (completes_participant session_id participant_id) w f =
      complete_participant-Grown st session_id participant_id now w
  step-Grown st now (surveys session_id participant_id kind survey) w f =
      save_participant_survey-Grown st.store session_id participant_id kind survey w
  step-Grown st now (gives_feedback session_id participant_id feedback) w f =
      submit_debrief_feedback-Grown st session_id participant_id feedback w
  step-Grown st now (checkpoints id checkpoint) w f = checkpoint_session-Grown st id checkpoint w
  step-Grown st now (finalizes id checkpoint) w f = finalize_session-Grown st id checkpoint now w

  run-Grown :
      (st : ServiceState N) (events : List (ℕ × Event N))
      → IsFiled st.store.sessions
      → AllFresh env st events
      → Grown st.store.sessions (run env st events).store.sessions
  unfolding run
  run-Grown st [] w f = Grown-refl st.store.sessions w
  run-Grown st ((now, event) ∷ events) w f =
      let first = step-Grown st now event w f.0 in
      Grown-trans first (run-Grown (step env st now event) events first.filed f.1)

  -- From a store whose sessions are filed under their identifiers, whatever operations follow, where
  -- new sessions get identifiers that no stored one has, a stored session is still there. Its status
  -- has moved along a path of the edges waiting to provisioning, provisioning to running, waiting,
  -- provisioning or running to completed, and waiting or provisioning to aborted, so that nothing
  -- leaves `completed` or `aborted`, nothing returns to the lobby and nothing that runs is aborted.
  -- Its identifier, round, condition, deadline and creation are the same, its roster has the same
  -- members in the same order unless it was waiting, and it does not grow beyond the group size.
  pub run-Follows :
      (st : ServiceState N) (events : List (ℕ × Event N)) (id : Text) (s : Session N)
      → IsFiled st.store.sessions
      → AllFresh env st events
      → get id st.store.sessions ≡ some s
      → (t : Session N) × (get id (run env st events).store.sessions ≡ some t) × Follows s t
  run-Follows st events id s w f p = (run-Grown st events w f).later id s p
