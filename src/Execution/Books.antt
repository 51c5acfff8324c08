-- ===== src/Execution/Books.antt =====
-- What a log of the pipeline amounts to, read independently of the code that wrote it: the row and
-- the audits that are durable, by the rule that a transaction's writes become durable with its
-- commit and not otherwise, whether an alarm went off, and whether the adapter was used as it must.
use web_db.Prelude.{Bool, true, false, not, ◌&&◌, ◌||◌, List, [], ◌∷◌, ◌++◌, Option, none, some}
use web_db.Execution.Data.{ExecutionStatus, running, completed, failed, cancelled, AuditOutcome}
use web_db.Execution.World.{
  Event, Log, reads_member, reads_connection, reads_policy, begins, begin_fails, commits,
  commit_fails, rolls_back, creates, updates, create_fails, update_fails, append_fails, audit_fails,
  appends, audits, alarms, resolves, acquires, acquire_fails, resolves_table, loads_table, queries,
  pages, releases,
}

-- `staged` is what the open transaction has written. `fouled` says that the adapter was asked for a
-- handle before the credential was resolved and the row was durably running, or while one was held,
-- or that a handle was used or given back that was not held.
pub record Books : Type 0 where
  pub staged : Option ExecutionStatus
  pub stored : Option ExecutionStatus
  pub staged_audits : List AuditOutcome
  pub audited : List AuditOutcome
  pub alarmed : Bool
  pub resolved : Bool
  pub held : Bool
  pub fouled : Bool

abbrev pub is_running : Option ExecutionStatus → Bool
is_running (some running) = true
is_running _ = false

-- A row that no call will change any more.
abbrev pub is_terminal : ExecutionStatus → Bool
is_terminal completed = true
is_terminal failed = true
is_terminal cancelled = true
is_terminal _ = false

abbrev pub or_stored : Option ExecutionStatus → Option ExecutionStatus → Option ExecutionStatus
or_stored none old = old
or_stored (some s) old = some s

abbrev drop_staged : Books → Books
drop_staged b = record b { staged = none; staged_audits = [] }

abbrev use_handle : Books → Books
use_handle b = record b { fouled = b.fouled || not b.held }

unfoldable pub enter : Event → Books → Books
enter begins b = drop_staged b
enter (creates x) b = record b { staged = some x.status }
enter (updates x) b = record b { staged = some x.status }
enter (appends e) b = record b { staged_audits = e.outcome ∷ b.staged_audits }
enter commits b = record b {
  staged = none;
  staged_audits = [];
  stored = or_stored b.staged b.stored;
  audited = b.staged_audits ++ b.audited;
}
enter commit_fails b = drop_staged b
enter rolls_back b = drop_staged b
enter (audits e) b = record b { audited = e.outcome ∷ b.audited }
enter (alarms c) b = record b { alarmed = true }
enter (resolves good) b = record b { resolved = good }
enter acquires b = record b {
  held = true;
  fouled = b.fouled || b.held || not (b.resolved && is_running b.stored);
}
enter resolves_table b = use_handle b
enter loads_table b = use_handle b
enter (queries q) b = use_handle b
enter (pages p) b = use_handle b
enter releases b = record b { held = false; fouled = b.fouled || not b.held }
enter reads_member b = b
enter reads_connection b = b
enter reads_policy b = b
enter begin_fails b = b
enter create_fails b = b
enter update_fails b = b
enter append_fails b = b
enter audit_fails b = b
enter acquire_fails b = b

abbrev pub empty_books : Books
empty_books = record {
  staged = none;
  stored = none;
  staged_audits = [];
  audited = [];
  alarmed = false;
  resolved = false;
  held = false;
  fouled = false;
}

unfoldable pub books : Log → Books
unfolding enter
books [] = empty_books
books (e ∷ es) = enter e (books es)
