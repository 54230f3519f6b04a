-- ===== src/Shared/Models.antt =====
-- packages/shared/src/models.ts: the domain types of a study session.
-- Left out are the extra keys that a condition's config may carry.
use Prim.Native.Nat.{ℕ}
use gdm_platform.Common.{Text, Option, List, Bool, JsMap}
use gdm_platform.Shared.Timestamp.{Timestamp}
use gdm_platform.Shared.Interventions.{InterventionConfig, InterventionLog, WindowEvaluation}

-- `string | number | boolean | string[]`.
pub data Answer (N : Type 0) : Type 0 where
  str : Text → Answer N
  num : N → Answer N
  bool : Bool → Answer N
  strs : List Text → Answer N

pub record Survey (N : Type 0) : Type 0 where
  pub answers : JsMap Text (Answer N)
  pub submitted_at : Timestamp

pub record ProlificIdentity : Type 0 where
  pub participant_id : Text
  pub study_id : Text
  pub session_id : Text

pub data ParticipationStage : Type 0 where
  arrived consent entry waiting chat exit done terminated : ParticipationStage

pub data ParticipationOutcome : Type 0 where
  completed declined_consent ineligible voluntary_withdrawal connection_timeout :
      ParticipationOutcome
  unmatched technical_failure participant_dropout group_aborted : ParticipationOutcome

pub data CompensationKind : Type 0 where
  none partial full manual_review : CompensationKind

pub data ProlificActionStatus : Type 0 where
  not_required pending return_requested bonus_prepared payment_in_progress : ProlificActionStatus
  payment_uncertain payment_submitted resolved_manually failed : ProlificActionStatus

pub record ProlificArrival : Type 0 where
  pub identity : ProlificIdentity
  pub open identity use *
  pub arrived_at : Timestamp
  pub participant_record_id : Option Text
  pub stage : ParticipationStage
  pub stage_updated_at : Timestamp
  pub last_seen_at : Timestamp
  pub outcome : Option ParticipationOutcome
  pub outcome_reason : Option Text
  pub ended_at : Option Timestamp
  pub elapsed_seconds : Option ℕ
  pub compensation_kind : Option CompensationKind
  pub compensation_amount_pence : Option ℕ
  pub prolific_action_status : Option ProlificActionStatus

pub record ParticipationOutcomeRecord : Type 0 where
  pub id : Text
  pub arrival : ProlificArrival
  pub open arrival use *
  pub return_requested_at : Option Timestamp
  pub bonus_batch_id : Option Text
  pub payment_submitted_at : Option Timestamp
  pub action_error : Option Text

pub data ParticipantRecruitmentSource : Type 0 where
  direct prolific : ParticipantRecruitmentSource

pub record Participant (N : Type 0) : Type 0 where
  pub id : Text
  pub name : Text
  pub tracking_token : Text
  pub recruitment_source : ParticipantRecruitmentSource
  pub prolific : Option ProlificIdentity
  pub completed_at : Option Timestamp
  pub matrix_user_id : Option Text
  pub entry_survey : Option (Survey N)
  pub exit_survey : Option (Survey N)

pub record Reaction : Type 0 where
  pub event_id : Option Text
  pub key : Text
  pub sender_id : Text
  pub timestamp : Timestamp

pub record RecordedReaction : Type 0 where
  pub event_id : Text
  pub key : Text
  pub sender_id : Text
  pub timestamp : Timestamp
  pub message_id : Text
  pub redacted : Bool
  pub redaction_event_id : Option Text
  pub redacted_at : Option Timestamp

pub record Message : Type 0 where
  pub id : Text
  pub timestamp : Timestamp
  pub sender_id : Text
  pub recipient_id : Option Text
  pub text : Text
  pub reactions : List Reaction

pub record Chat : Type 0 where
  pub messages : List Message

pub record Briefing : Type 0 where
  pub title : Text
  pub html : Text

pub record RankingItem : Type 0 where
  pub id : Text
  pub label : Text

pub record RankingTask : Type 0 where
  pub id : Text
  pub title : Text
  pub items : List RankingItem

pub record Movement : Type 0 where
  pub item_id : Text
  pub from : ℕ
  pub to : ℕ

pub record Ranking : Type 0 where
  pub event_id : Option Text
  pub task_id : Text
  pub order : List Text
  pub updated_at : Timestamp
  pub updated_by : Text
  pub movement : Option Movement

pub data BehavioralEventType : Type 0 where
  typing_start typing_stop tab_hidden tab_visible : BehavioralEventType
  cursor_activity ranking_move : BehavioralEventType

pub record BehavioralEvent (N : Type 0) : Type 0 where
  pub id : Text
  pub type : BehavioralEventType
  pub participant_id : Text
  pub timestamp : Timestamp
  pub duration_ms : Option N
  pub payload : Option (JsMap Text (Answer N))

pub record ClassifierIndicator : Type 0 where
  pub value : Bool
  pub reason : Text

pub record ClassifierRating : Type 0 where
  pub rating : ℕ
  pub reason : Text

pub record ContributionClassification (N : Type 0) : Type 0 where
  pub message_id : Text
  pub sender_id : Text
  pub classified_at : Timestamp
  pub relevance : ClassifierRating
  pub coherence : ClassifierRating
  pub invites_participation : ClassifierIndicator
  pub meaningfulness_score : N
  pub model : Text
  pub prompt_version : Text
  pub prompt : Text
  pub raw_output : Text

pub record ClassificationFailure : Type 0 where
  pub message_id : Text
  pub sender_id : Text
  pub failed_at : Timestamp
  pub model : Text
  pub prompt_version : Text
  pub error : Text

pub record Poll : Type 0 where
  pub id : Text
  pub question : Text
  pub options : List Text
  pub votes : JsMap ℕ (List Text)
  pub closed : Bool

pub record Condition (N : Type 0) : Type 0 where
  pub id : Text
  pub name : Text
  pub active : Bool
  pub goal : ℕ
  pub duration_minutes : ℕ
  pub group_size : ℕ
  pub config : InterventionConfig N

pub record BotConfig (N : Type 0) : Type 0 where
  pub llm_enabled : Bool
  pub condition : Condition N

pub data SessionStatus : Type 0 where
  waiting provisioning running completed aborted : SessionStatus

pub record StudySettings : Type 0 where
  pub compensation_url : Text
  pub no_consent_url : Text
  pub ineligible_url : Text
  pub withdrawal_url : Text
  pub unmatched_url : Text
  pub technical_failure_url : Text

-- A value of `runtimeState: Record<string, unknown>`: the bookkeeping of the bot rules, with the
-- time of their last nudge, or anything else, which the services only copy.
pub data StateValue : Type 0 where
  rule_state : (last_intervention_at_ms : Option ℕ) → StateValue
  opaque : Text → StateValue

pub record Session (N : Type 0) : Type 0 where
  pub id : Text
  pub status : SessionStatus
  pub round_id : ℕ
  pub condition : Condition N
  pub bot : BotConfig N
  pub participants : List (Participant N)
  pub chat : Chat
  pub briefing : Briefing
  pub ranking_task : RankingTask
  pub ranking : Ranking
  pub ranking_history : Option (List Ranking)
  pub interventions : List (InterventionLog N)
  pub behavioral_events : List (BehavioralEvent N)
  pub contribution_classifications : List (ContributionClassification N)
  pub window_evaluations : Option (List (WindowEvaluation N))
  pub classification_failures : Option (List ClassificationFailure)
  pub processed_event_ids : Option (List Text)
  pub redacted_reaction_event_ids : Option (List Text)
  pub reaction_events : Option (List RecordedReaction)
  pub runtime_state : Option (JsMap Text StateValue)
  pub checkpoint_revision : Option ℕ
  pub polls : List Poll
  pub duration_minutes : ℕ
  pub room_id : Option Text
  pub waiting_deadline_at : Option Timestamp
  pub created_at : Timestamp
  pub started_at : Option Timestamp
  pub completed_at : Option Timestamp
