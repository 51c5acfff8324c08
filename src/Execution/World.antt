-- ===== src/Execution/World.antt =====
-- A call of the pipeline as a program over its world: the result that it fills in, the execution
-- row that it holds a pointer to, the continuation registry that it shares with other calls, and
-- the log of what it asked of the stores, the credentials, the adapter and the alarm. What these
-- answer may depend on everything that was asked before.
use web_db.Prelude.{ℕ, ℤ, Bool, String, List, ◌∷◌, Option, some, Result, ok, err, Bytes}
use web_db.SqlPolicy.Types.{MySqlLexerMode}
use web_db.SqlPolicy.Types as Policy
use web_db.SqlPolicy.Classifier.{Parser}
use web_db.QueryPlan.Types.{TableMetadata}
use web_db.QueryPlan.Shape.{QueryShape}
use web_db.QueryPlan.NextPage.{VerifiedNextPagePlan}
use web_db.Pagination.Quota.{Registry}
use web_db.Pagination.Calls.{Call, after_calls}
use web_db.Execution.Codes.{Code, Cause, CredentialCode, AdapterError}
use web_db.Execution.Data.{
  Connection, ConnectionPolicy, ConnectConfig, CredentialPayload, MemberRole, Execution,
  AuditMetadata, AuditEvent, QueryResult, FirstPageRequest, ExecuteResult,
}

-- What the pipeline asks for, with how it went where that matters.
pub data Event : Type 0 where
  reads_member reads_connection reads_policy : Event
  begins begin_fails commits commit_fails rolls_back : Event
  creates updates : Execution → Event
  create_fails update_fails append_fails audit_fails : Event
  appends audits : AuditEvent → Event
  alarms : Code → Event
  resolves : Bool → Event
  acquires : Event
  acquire_fails : Event
  resolves_table loads_table : Event
  queries : FirstPageRequest → Event
  pages : VerifiedNextPagePlan → Event
  releases : Event

-- The newest first.
abbrev pub Log : Type 0
Log = List Event

pub record World : Type 0 where
  pub result : ExecuteResult
  pub execution : Execution
  pub registry : Registry
  pub released : Bool
  pub log : Log

-- The code of a credential error, and the version that a `KEKVersionError` in its chain carries.
pub record CredentialError : Type 0 where
  pub code : Option CredentialCode
  pub kek_version : Option ℤ

-- What the pipeline is built from (`Pipeline`, `PipelineConfig`): which parts are there, and what
-- the parts answer. `others` are the calls that other requests make of the registry in the
-- meantime, and `draw` is the registry's random handle.
pub record Env : Type 1 where
  pub has_parts : Bool
  pub has_audit : Bool
  pub mysql_mode : MySqlLexerMode
  pub tls_mode : String
  pub clock : Log → ℕ
  pub new_trace : Log → String
  pub member : Log → String → String → Result Cause (Option MemberRole)
  pub connection : Log → String → String → Result Cause Connection
  pub policy : Log → Connection → Result Cause (Option ConnectionPolicy)
  pub begin : Log → Bool
  pub commit : Log → Bool
  pub create : Log → Execution → Option (String × ℕ)
  pub update : Log → Execution → Bool
  pub append : Log → AuditEvent → Option String
  pub audit : Log → AuditEvent → Option String
  pub marshals : AuditMetadata → Bool
  pub resolve : Log → Connection → Result CredentialError CredentialPayload
  pub acquire : Log → ConnectConfig → Option AdapterError
  pub resolve_table : Log → String → Option String
  pub load_table : Log → String → String → Option TableMetadata
  pub pool_generation : Log → ℤ
  pub query : Log → FirstPageRequest → Result AdapterError QueryResult
  pub next_page : Log → VerifiedNextPagePlan → Result AdapterError QueryResult
  pub sql_bytes : String → Bytes
  pub hash_sql : String → String
  pub pg_parser : Parser
  pub my_parser : Parser
  pub analyze_shape : Policy.Dialect → String → Option QueryShape
  pub schema_generation : TableMetadata → String
  pub parse_id : String → Option String
  pub digest : String → String
  pub draw : Log → Option String
  pub others : Log → List Call

-- A program that may end early with an `E`; what it did to the world stays done.
abbrev pub Program : Type 0 → Type 0 → Type 0
Program E A = World → Result E A × World

abbrev pub give : {E A : Type 0} → A → Program E A
give a w = (ok a, w)

abbrev pub leave : {E A : Type 0} → E → Program E A
leave e w = (err e, w)

abbrev pub look : {E A : Type 0} → (World → A) → Program E A
look f w = (ok (f w), w)

abbrev pub change : {E : Type 0} → (World → World) → Program E (Unit {0})
change f w = (ok tt, f w)

abbrev pub resume : {E A B : Type 0} → (A → Program E B) → Result E A × World → Result E B × World
resume next (err e, w) = (err e, w)
resume next (ok a, w) = next a w

infixl 5 ◌>>=◌ ◌>>◌
abbrev pub ◌>>=◌ : {E A B : Type 0} → Program E A → (A → Program E B) → Program E B
◌>>=◌ first next w = resume next (first w)

abbrev pub ◌>>◌ : {E A B : Type 0} → Program E A → Program E B → Program E B
◌>>◌ first next w = resume (λ _. next) (first w)

abbrev pub recover : {E F A : Type 0} → (E → Program F A) → Result E A × World → Result F A × World
recover handler (err e, w) = handler e w
recover handler (ok a, w) = (ok a, w)

-- `if err := ...; err != nil { handler }`
abbrev pub on_error : {E F A : Type 0} → Program E A → (E → Program F A) → Program F A
on_error body handler w = recover handler (body w)

abbrev pub then_do : {E A : Type 0} → (World → World) → Result E A × World → Result E A × World
then_do last (r, w) = (r, last w)

-- `defer last()`
abbrev pub deferred : {E A : Type 0} → (World → World) → Program E A → Program E A
deferred last body w = then_do last (body w)

abbrev pub note : Event → World → World
note e w = record w { log = e ∷ w.log }

abbrev pub emit : {E : Type 0} → Event → Program E (Unit {0})
emit e = change (note e)

abbrev pub set_result : {E : Type 0} → (ExecuteResult → ExecuteResult) → Program E (Unit {0})
set_result f = change (λ w. record w { result = f w.result })

abbrev pub set_execution : {E : Type 0} → (Execution → Execution) → Program E (Unit {0})
set_execution f = change (λ w. record w { execution = f w.execution })

-- `result.ErrorCode = code`
abbrev pub with_code : Code → ExecuteResult → ExecuteResult
with_code c r = record r { error_code = some c }

-- `result.ErrorCode = code; return result, code`
abbrev pub fail : {A : Type 0} → Code → Program Code A
fail c w = (err c, record w { result = with_code c w.result })

-- What other requests do to the registry before the next call of it.
abbrev pub interfere : {E : Type 0} → Env → Program E (Unit {0})
interfere env =
    change (λ w. record w { registry = after_calls env.digest (env.others w.log) w.registry })
