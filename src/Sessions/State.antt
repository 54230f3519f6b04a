-- ===== src/Sessions/State.antt =====
-- sessions/sessions.service.ts: what its operations work on, and how they fail.
use gdm_platform.Common.{Text, Text-eq, ◌≡◌, refl, ◌⊎◌, inl, inr}
use gdm_platform.Participation.Compensation.{EnvNumber}
use gdm_platform.Participation.State.{ParticipationState}
use gdm_platform.Store.State.{StoreState}

-- The two stores that the service holds.
pub record ServiceState (N : Type 0) : Type 0 where
  pub store : StoreState N
  pub participation : ParticipationState

-- The environment values that the service reads.
pub record Environment : Type 0 where
  pub waiting_timeout_minutes : EnvNumber
  pub partial_payment_pence_per_minute : EnvNumber
  pub partial_payment_max_pence : EnvNumber
  pub participant_reconnect_grace_seconds : EnvNumber

-- The exceptions, with their messages; `unknown_session` is the store's own error.
pub data ServiceError : Type 0 where
  bad_request conflict not_found : Text → ServiceError
  unknown_session : ServiceError

pub data Result {ℓ} (A : Type ℓ) : Type ℓ where
  ok : A → Result A
  failed : ServiceError → Result A

pub Result-cases {ℓ} :
    {A : Type ℓ} (r : Result A) → ((e : ServiceError) × (r ≡ failed e)) ⊎ ((a : A) × (r ≡ ok a))
Result-cases (failed e) = inl (e, refl)
Result-cases (ok a) = inr (a, refl)

-- A call gives the state that it leaves behind, whether it returns or throws.
abbrev pub Outcome : Type 0 → Type 0 → Type 0
Outcome N A = ServiceState N × Result A

module _ {N : Type 0} where
  abbrev pub with_store : ServiceState N → StoreState N → ServiceState N
  with_store st store = record st { store = store }

  abbrev pub with_participation : ServiceState N → ParticipationState → ServiceState N
  with_participation st participation = record st { participation = participation }
