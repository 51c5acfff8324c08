-- ===== src/Execution/Tests/Example.antt =====
-- An environment in which everything answers, and requests, for the runs of execution/pipeline.go.
use web_db.Prelude.{true, false, [], ◌∷◌, none, some, ok, pos, codes}
use web_db.SqlPolicy.Types.{stmt_select, no_features}
use web_db.SqlPolicy.Classifier.{Parser}
use web_db.QueryPlan.Types.{TableMetadata}
use web_db.QueryPlan.Value.{Value}
use web_db.Pagination.Quota.{Registry}
use web_db.Execution.Data.{
  Connection, ConnectionPolicy, viewer, Execution, pending, QueryResult, ExecuteRequest,
  ExecuteResult,
}
use web_db.Execution.World.{World, Env}

abbrev parser : Parser
parser = record {
  Ast = Unit;
  parse = λ sql. some (some tt ∷ []);
  classify_ast = λ ast. (stmt_select, no_features);
  sha256_hex = λ sql. "h";
}

abbrev pub conn : Connection
conn = record {
  id = "c";
  workspace_id = "w";
  engine = "postgresql";
  host = "db";
  port = pos 5432;
  database = "app";
  environment = "production";
  secret_ref = "s";
  secret_version = pos 1;
  updated_at = some (pos 7);
}

abbrev pub policy : ConnectionPolicy
policy = record {
  allow_read = some true;
  statement_timeout_ms = pos 1000;
  max_rows = pos 50;
  updated_at = some (pos 9);
}

abbrev pub page : QueryResult
page = record {
  columns = "id" ∷ [];
  rows = (Value.number 4 ∷ []) ∷ [];
  has_more = false;
  total_returned = pos 1;
}

abbrev pub table : TableMetadata
table = record {
  schema = "public";
  table = "t";
  columns = record { name = "id"; ordinal = 1; nullable = false } ∷ [];
  primary_key = some ("id" ∷ []);
  unique_constraints = [];
}

-- Everything is there and answers.
abbrev pub env : Env
env = record {
  has_parts = true;
  has_audit = true;
  mysql_mode = record { no_backslash_escapes = false; ansi_quotes = false };
  tls_mode = "require";
  clock = λ log. 6;
  new_trace = λ log. "trace";
  member = λ log workspace user. ok (some viewer);
  connection = λ log workspace id. ok conn;
  policy = λ log c. ok (some policy);
  begin = λ log. true;
  commit = λ log. true;
  create = λ log x. some ("x", 6);
  update = λ log x. true;
  append = λ log e. some "a";
  audit = λ log e. some "a";
  marshals = λ md. true;
  resolve = λ log c. ok (record { user = "u"; password = "p" });
  acquire = λ log cfg. none;
  resolve_table = λ log t. some "public";
  load_table = λ log schema t. some table;
  pool_generation = λ log. pos 1;
  query = λ log q. ok page;
  next_page = λ log p. ok page;
  sql_bytes = λ sql. codes sql;
  hash_sql = λ sql. "raw";
  pg_parser = parser;
  my_parser = parser;
  analyze_shape = λ dialect sql. none;
  schema_generation = λ meta. "g";
  parse_id = λ id. some id;
  digest = λ handle. handle;
  draw = λ log. some "b";
  others = λ log. [];
}

abbrev pub request : ExecuteRequest
request = record {
  principal = record { user_id = "u"; workspace_id = "w" };
  connection_id = "c";
  sql = "SELECT 1";
  args = [];
  engine = "";
  sort_keys = [];
  page_size = pos 0;
}

abbrev nothing : ExecuteResult
nothing = record {
  decision = none;
  credential_resolved = false;
  adapter_called = false;
  result = none;
  error_code = none;
  trace_id = "";
  execution_id = none;
  next_page_token = none;
  audit_event_id = none;
  audit_state = none;
  outcome = none;
  engine = "";
  page_size = pos 0;
}

abbrev no_row : Execution
no_row = record {
  id = "";
  workspace_id = "";
  connection_id = "";
  actor_id = "";
  statement_hash = "";
  status = pending;
  trace_id = "";
  started_at = 0;
  finished_at = none;
  duration = none;
  row_count = none;
  error_code = none;
}

abbrev pub start : Registry → World
start r = record { result = nothing; execution = no_row; registry = r; released = true; log = [] }
