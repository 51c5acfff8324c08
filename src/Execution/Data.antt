-- ===== src/Execution/Data.antt =====
-- The data of the pipeline: the metadata models it reads (metadata/models.go), the rows and audit
-- events it writes, and the requests and results of execution/pipeline.go. Ids, engines and
-- environments are texts; times are numbers; `updated_at` is the `UnixMicro` of a time, `none` the
-- zero time.
use web_db.Prelude.{ℕ, ℤ, Bool, true, false, String, List, Option, none, some, is_positive}
use web_db.SqlPolicy.Types.{PolicyDecision, StableReasonCode}
use web_db.QueryPlan.Value.{Value}
use web_db.QueryPlan.Plan.{VerifiedSortPlan}
use web_db.QueryPlan.Types.{SortKey}
use web_db.Execution.Codes.{Code}

pub data MemberRole : Type 0 where
  owner admin editor viewer unknown_role : MemberRole

unfoldable pub can_read : MemberRole → Bool
can_read owner = true
can_read admin = true
can_read editor = true
can_read viewer = true
can_read unknown_role = false

pub record Connection : Type 0 where
  pub id : String
  pub workspace_id : String
  pub engine : String
  pub host : String
  pub port : ℤ
  pub database : String
  pub environment : String
  pub secret_ref : String
  pub secret_version : ℤ
  pub updated_at : Option ℤ

-- `credentials.CredentialPayload`
pub record CredentialPayload : Type 0 where
  pub user : String
  pub password : String

-- `adapter.ConnectConfig`
pub record ConnectConfig : Type 0 where
  pub connection_id : String
  pub secret_version : ℤ
  pub config_revision : ℤ
  pub engine : String
  pub host : String
  pub port : ℤ
  pub user : String
  pub password : String
  pub database : String
  pub tls : String

-- `allow_read` is Go's pointer to a Boolean.
pub record ConnectionPolicy : Type 0 where
  pub allow_read : Option Bool
  pub statement_timeout_ms : ℤ
  pub max_rows : ℤ
  pub updated_at : Option ℤ

-- `policy.AllowRead != nil && *policy.AllowRead`
abbrev pub allows_read : ConnectionPolicy → Bool
allows_read p = elim p.allow_read [ none ↦ false | some b ↦ b ]

-- `connectionConfigRevision` and `policyVersionOf`, on the time that they read; `none` is an error.
unfoldable pub version_of : Option ℤ → Option ℤ
version_of none = none
version_of (some v) = elim (is_positive v) [ true ↦ some v | false ↦ none ]

unfoldable pub connection_config_revision : Connection → Option ℤ
unfolding version_of
connection_config_revision c = version_of c.updated_at

unfoldable pub policy_version_of : ConnectionPolicy → Option ℤ
unfolding version_of
policy_version_of p = version_of p.updated_at

pub data ExecutionStatus : Type 0 where
  pending running completed failed cancelled : ExecutionStatus

-- The columns of `metadata.Execution` that the pipeline sets.
pub record Execution : Type 0 where
  pub id : String
  pub workspace_id : String
  pub connection_id : String
  pub actor_id : String
  pub statement_hash : String
  pub status : ExecutionStatus
  pub trace_id : String
  pub started_at : ℕ
  pub finished_at : Option ℕ
  pub duration : Option ℕ
  pub row_count : Option ℤ
  pub error_code : Option Code

pub data AuditOutcome : Type 0 where
  outcome_succeeded outcome_failed outcome_denied outcome_cancelled : AuditOutcome

-- The pointer to a reason: a code of the policy, or one of the pipeline.
pub data Reason : Type 0 where
  policy_reason : StableReasonCode → Reason
  code_reason : Code → Reason

-- The fields of `metadata.AuditMetadata` that the pipeline sets.
pub record AuditMetadata : Type 0 where
  pub statement_hash : Option String
  pub reason_code : Option Reason
  pub error_code : Option Code
  pub engine : Option String
  pub environment : Option String
  pub row_count : Option ℤ
  pub duration : Option ℕ
  pub secret_ref : Option String
  pub secret_version : Option ℤ
  pub kek_version : Option ℤ

abbrev pub no_metadata : AuditMetadata
no_metadata = record {
  statement_hash = none;
  reason_code = none;
  error_code = none;
  engine = none;
  environment = none;
  row_count = none;
  duration = none;
  secret_ref = none;
  secret_version = none;
  kek_version = none;
}

pub data ActorType : Type 0 where
  actor_user actor_system : ActorType

pub data Action : Type 0 where
  sql_execute credential_lookup credential_decrypt : Action

pub record AuditEvent : Type 0 where
  pub workspace_id : String
  pub actor_type : ActorType
  pub actor_id : Option String
  pub connection_id : Option String
  pub action : Action
  pub resource_type : String
  pub resource_id : String
  pub outcome : AuditOutcome
  pub metadata : AuditMetadata
  pub trace_id : String
  pub execution_id : Option String
  pub occurred_at : ℕ

-- `adapter.QueryResult`; the columns' names are what the pipeline reads of them.
pub record QueryResult : Type 0 where
  pub columns : List String
  pub rows : List (List Value)
  pub has_more : Bool
  pub total_returned : ℤ

pub record Principal : Type 0 where
  pub user_id : String
  pub workspace_id : String

pub record ExecuteRequest : Type 0 where
  pub principal : Principal
  pub connection_id : String
  pub sql : String
  pub args : List Value
  pub engine : String
  pub sort_keys : List SortKey
  pub page_size : ℤ

pub record NextPageRequest : Type 0 where
  pub principal : Principal
  pub token : String

-- `adapter.FirstPageRequest`; the scope is the principal.
pub record FirstPageRequest : Type 0 where
  pub scope : Principal
  pub sql : String
  pub args : List Value
  pub sort_plan : Option VerifiedSortPlan
  pub page_size : ℤ
  pub max_rows : ℤ

-- `AuditState` of the receipt: `recorded`, or the outcome's own text.
pub data AuditState : Type 0 where
  state_recorded : AuditState
  state_of : AuditOutcome → AuditState

unfoldable pub audit_state_for_outcome : AuditOutcome → AuditState
audit_state_for_outcome outcome_succeeded = state_recorded
audit_state_for_outcome outcome = state_of outcome

pub record ExecuteResult : Type 0 where
  pub decision : Option PolicyDecision
  pub credential_resolved : Bool
  pub adapter_called : Bool
  pub result : Option QueryResult
  pub error_code : Option Code
  pub trace_id : String
  pub execution_id : Option String
  pub next_page_token : Option String
  pub audit_event_id : Option String
  pub audit_state : Option AuditState
  pub outcome : Option AuditOutcome
  pub engine : String
  pub page_size : ℤ
