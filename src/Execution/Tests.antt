-- ===== src/Execution/Tests.antt =====
-- Runs of the pipeline of execution/pipeline.go in small concrete environments, and the theorems
-- about it at them.
mod Example
pub use Example.*
use web_db.Prelude.{◌≡◌, ◌⊎◌, refl, true, false, String, [], ◌∷◌, Option, some, ok, pos, str_ne}
use web_db.Prelude.{by_test, ◌&&◌, Option-cases, inl, inr, ◌+◌}
use web_db.SqlPolicy.Policy.{decide, apply_policy}
use web_db.SqlPolicy.Placeholder.{has_unbound_placeholder, scan_placeholder, step}
use web_db.Pagination.Config.{max_ttl}
use web_db.Pagination.State.{state_bytes, valid_state}
use web_db.Pagination.Counters.{get}
use web_db.Pagination.Entries.{find}
use web_db.Pagination.Quota.{evict_for_quota, evict_loop, has_room}
use web_db.Execution.Codes.{map_dialect}
use web_db.Execution.Data.{can_read, connection_config_revision, version_of}
use web_db.Execution.Audit.{
  begin_tx, create_execution, commit_tx, update_execution, append_audit, new_audit_event,
  execution_event,
}
use web_db.Execution.Finish.{
  record_post_execution, verdict_of, finish_execution, finish_with, commit_execution,
  audit_execution, duration_of,
}
use web_db.Execution.Sorting.{policy_dialect}
use web_db.Execution.Execute.{
  check_member, check_connection, read_connection, hash_of, create_pending, prepare, check_decision,
  check_policy, judge_policy, check_limits, resolve_credential, judge_credential, check_revision,
  config_at, mark_running,
}
use web_db.Execution.Query.{
  run_pending, run_phase_d, acquire_handle, query_with_handle, sort_if_needed, run_query,
  token_if_needed, publish,
}
use web_db.SqlPolicy.Types.{PolicyDecision}
use web_db.SqlPolicy.Classifier.{normalize_sql, classify, classify_parsed}
use web_db.QueryPlan.Types.{
  postgresql, validate_table, valid_ident, check_columns, contains, check_primary_key,
  check_uniques, check_key_columns, SchemaSnapshot,
}
use web_db.QueryPlan.Plan.{SortSpec}
use web_db.QueryPlan.Value as Value
use web_db.QueryPlan.Value.{Value}
use web_db.Pagination.Config.{default_config, normalized_config}
use web_db.Pagination.State.{ContinuationState}
use web_db.Pagination.Quota.{Registry, new}
use web_db.Pagination.Registry.{Claim, create, claim}
use web_db.Pagination.Calls.{after_calls}
use web_db.Pagination.Ownership.{Spent}
use web_db.Execution.Codes.{Code, large_payload, map_credential_error}
use web_db.Execution.Data.{failed, pending, outcome_denied, no_metadata, NextPageRequest}
use web_db.Execution.World.{World, interfere, ◌>>◌}
use web_db.Execution.Audit.{fail_pre_execution, alarm_on_decryption}
use web_db.Execution.Finish.{finalize_panic}
use web_db.Execution.Sorting.{
  new_schema_snapshot, extract_last_values, sort_values, value_at, last_row, has_duplicate,
}
use web_db.Execution.Execute.{judge, evaluate_sql}
use web_db.Execution.Query.{execute, effective_max_rows, effective_page_size}
use web_db.Execution.NextPage.{claim_token, execute_next_page}
use web_db.Execution.Rules.{Ends, Meets}
use web_db.Execution.Settled.{Refused}
use web_db.Execution.Served.{Served}
use web_db.Execution.Delivery.{Fresh, execute-fails_closed}
use web_db.Execution.Paging.{Stuck, execute_next_page-fails_closed}
use web_db.Execution.Spending.{execute_next_page-Spent}
use web_db.Execution.Limits.{
  WithinLimits, effective_page_size-WithinLimits, SortValues, extract_last_values-SortValues,
  IsSnapshot, new_schema_snapshot-IsSnapshot,
}
use web_db.Execution.Refusing.{Untouched, execute-refused, touched}
use web_db.Execution.Failing.{
  Kept, Alarmed, Settles, fail_pre_execution-atomic, finalize_panic-Settles,
  alarm_on_decryption-rings,
}

start-Fresh : (r : Registry) → Fresh (start r)
start-Fresh r = record {
  empty_log = refl;
  no_handle = refl;
  uncoded = refl;
  withheld = record { no_page = refl; no_token = refl };
}

abbrev empty : World
empty = start (new default_config)

execute-fails_closed_example :
    Ends (λ _. Served true) (λ _. Refused true) (execute env request empty)
execute-fails_closed_example =
    execute-fails_closed env request empty (start-Fresh (new default_config))

-- The empty statement is refused for every engine.
empty_evaluated : (engine : String) → (evaluate_sql env engine "" env.mysql_mode).0.allowed ≡ false
unfolding evaluate_sql decide
empty_evaluated engine = elim (Option-cases (map_dialect engine)) [
  | inl e ↦ rw (evaluate_sql, e) refl
  | inr (d, e) ↦ rw (evaluate_sql, e) refl
]

empty_refused : (engine : String) → (judge env engine "").0.allowed ≡ false
unfolding judge
empty_refused engine =
    by_test (λ (d : PolicyDecision × Option Code). d.0.allowed ≡ false)
      ((evaluate_sql env engine "" env.mysql_mode).0.allowed && _) _ _ (λ _. refl)
      (λ _. empty_evaluated engine)

-- A run that shows the page.
execute_run : (execute env request empty).1.result.result ≡ some page
unfolding execute check_member can_read check_connection read_connection judge evaluate_sql
    map_dialect decide normalize_sql classify classify_parsed apply_policy has_unbound_placeholder
    policy_dialect hash_of create_pending begin_tx create_execution commit_tx run_pending prepare
    check_decision check_policy judge_policy check_limits resolve_credential judge_credential
    check_revision config_at connection_config_revision version_of mark_running update_execution
    run_phase_d acquire_handle effective_max_rows effective_page_size query_with_handle
    sort_if_needed run_query token_if_needed publish record_post_execution verdict_of
    finish_execution finish_with commit_execution audit_execution append_audit new_audit_event
    execution_event duration_of scan_placeholder step
execute_run = refl

execute-refused_example :
    Ends (λ _ _. ⊥) (λ _. Untouched) (execute env (record request { sql = "" }) empty)
unfolding touched
execute-refused_example = execute-refused env (record request { sql = "" }) empty empty_refused refl

finalize_panic-Settles_example : Settles (finalize_panic env conn "trace" 6 empty).1
finalize_panic-Settles_example = finalize_panic-Settles env conn "trace" 6 empty

alarm_on_decryption-rings_example :
    alarm_on_decryption (some (map_credential_error (some large_payload))) empty ≡ (ok tt, empty)
alarm_on_decryption-rings_example = alarm_on_decryption-rings (some large_payload) empty

fail_pre_execution-atomic_example :
    Meets
      (Kept (some pending) [])
      (fail_pre_execution env conn "trace" 6 outcome_denied no_metadata)
      (λ _. Kept (some failed) (outcome_denied ∷ []))
      (λ _. Alarmed (some pending) [])
fail_pre_execution-atomic_example =
    fail_pre_execution-atomic env conn "trace" 6 outcome_denied no_metadata (some pending) []

effective_page_size-WithinLimits_example :
    WithinLimits policy
      (effective_page_size (pos 0) (effective_max_rows policy))
      (effective_max_rows policy)
effective_page_size-WithinLimits_example = effective_page_size-WithinLimits policy (pos 0) refl

abbrev by_id : SortSpec
by_id = record { column = "id"; base_column = "id"; ascending = true; nulls_last = true }

extract_run :
    extract_last_values ((Value.nil ∷ []) ∷ (Value.number 4 ∷ []) ∷ []) ("id" ∷ []) (by_id ∷ [])
    ≡ some (Value.boolean false ∷ Value.number 4 ∷ [])
unfolding extract_last_values sort_values value_at last_row has_duplicate contains
extract_run = refl

extract_last_values-SortValues_example :
    SortValues
      ("id" ∷ [])
      (last_row (Value.nil ∷ []) ((Value.number 4 ∷ []) ∷ []))
      (by_id ∷ [])
      (Value.boolean false ∷ Value.number 4 ∷ [])
extract_last_values-SortValues_example =
    extract_last_values-SortValues ("id" ∷ []) (Value.nil ∷ []) ((Value.number 4 ∷ []) ∷ [])
      (by_id ∷ []) (Value.boolean false ∷ Value.number 4 ∷ []) extract_run

abbrev snapshot : SchemaSnapshot
snapshot = record {
  connection_id = "c";
  dialect = postgresql;
  pool_generation = pos 1;
  schema_generation = "g";
  table = table;
}

snapshot_run : new_schema_snapshot (λ meta. "g") "c" postgresql (pos 1) table ≡ some snapshot
unfolding new_schema_snapshot validate_table check_columns check_primary_key check_uniques
    check_key_columns contains valid_ident
snapshot_run = refl

new_schema_snapshot-IsSnapshot_example : IsSnapshot "c" postgresql (pos 1) table snapshot
new_schema_snapshot-IsSnapshot_example =
    new_schema_snapshot-IsSnapshot (λ meta. "g") "c" postgresql (pos 1) table snapshot snapshot_run
      (str_ne "g" "" refl)

abbrev first_page : ContinuationState
first_page = record {
  user_id = "u";
  workspace_id = "w";
  connection_id = "c";
  pool_generation = pos 1;
  schema_generation = "g";
  table_schema = "public";
  table_name = "t";
  policy_version = pos 9;
  statement_hash = "h";
  sort_plan = some (record {
    version = 1;
    valid = true;
    specs = by_id ∷ [];
    binding = record {
      connection_id = "c";
      dialect = postgresql;
      pool_generation = pos 1;
      schema_generation = "g";
    };
  });
  sql = "SELECT id FROM t";
  args = [];
  last_sort_values = Value.boolean false ∷ Value.number 4 ∷ [];
  cumulative_count = pos 1;
  page_size = pos 1;
  max_rows = pos 50;
  timeout_ms = pos 1000;
  expires_at = 0;
}

-- The first page's continuation under the handle `a`, and a request that hands it in.
abbrev created : Registry
created = (create env.digest 5 (some "a") (some first_page) (new default_config)).0

abbrev next_request : NextPageRequest
next_request = record { principal = record { user_id = "u"; workspace_id = "w" }; token = "a" }

execute_next_page-fails_closed_example :
    Ends
      (λ _. Served true)
      (λ _ v. Refused true v ⊎ Stuck v)
      (execute_next_page env next_request (start created))
execute_next_page-fails_closed_example =
    execute_next_page-fails_closed env next_request (start created) (start-Fresh created)

abbrev held : Claim
held = record { digest = "a"; version = 1; state = record first_page { expires_at = 5 + max_ttl } }

abbrev after_claim : Registry
after_claim = (claim env.digest 6 "a" created).0

claim_run :
    (◌>>◌ {E = Code} (interfere env) (claim_token env "a")) (start created)
    ≡ (ok held, start after_claim)
unfolding claim_token after_calls create claim new normalized_config valid_state state_bytes
    evict_for_quota evict_loop has_room get find
claim_run = refl

execute_next_page-Spent_example :
    Spent env.digest held (execute_next_page env next_request (start created)).1.registry
execute_next_page-Spent_example =
    execute_next_page-Spent env next_request (start created) (start after_claim) held refl claim_run
