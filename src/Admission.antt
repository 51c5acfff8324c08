-- ===== src/Admission.antt =====
-- adapter/admission.go: permits under limits per user, workspace and connection. A limiter is its
-- count; a limiter that `ensure` has not made yet reads as 0. `lastAccess` is read by `idle` alone,
-- which nothing calls. `TryAcquire` holds the controller's lock throughout, and is one step here;
-- so is `Release`, which takes the limiters' locks one after the other.
pub mod System
pub mod Exact
pub mod Tests
use web_db.Prelude.{
  ℕ, ◌+◌, ◌-◌, Bool, true, false, String, [], Option, none, some, ltb, leb, if◌then◌else◌, Result,
  ok, err,
}
use web_db.Pagination.Counters.{Counters, get, put}

pub record Admission : Type 0 where
  pub users : Counters
  pub workspaces : Counters
  pub connections : Counters
  pub max_user : ℕ
  pub max_workspace : ℕ
  pub max_conn : ℕ
  pub closed : Bool

abbrev pub new_admission_controller : Admission
new_admission_controller = record {
  users = [];
  workspaces = [];
  connections = [];
  max_user = 2;
  max_workspace = 10;
  max_conn = 5;
  closed = false;
}

pub record Permit : Type 0 where
  pub user_id : String
  pub workspace_id : String
  pub conn_id : String
  pub released : Bool

pub data AdmissionError : Type 0 where
  pool_closed user_limited workspace_limited connection_limited : AdmissionError

-- `tryInc`; `none` is the answer false.
abbrev pub try_inc : ℕ → ℕ → Option ℕ
try_inc max count = if leb max count then none else some (count + 1)

abbrev pub dec : ℕ → ℕ
dec count = if ltb 0 count then count - 1 else count

abbrev pub dec_user : String → Admission → Admission
dec_user u a = record a { users = put a.users u (dec (get a.users u)) }

abbrev pub dec_workspace : String → Admission → Admission
dec_workspace w a = record a { workspaces = put a.workspaces w (dec (get a.workspaces w)) }

abbrev pub dec_connection : String → Admission → Admission
dec_connection c a = record a { connections = put a.connections c (dec (get a.connections c)) }

-- The third step of `TryAcquire`, which takes the first two back.
unfoldable pub acquire_connection :
    String → String → String → Admission → Admission × Result AdmissionError Permit
acquire_connection u w c a = elim (try_inc a.max_conn (get a.connections c)) [
  | none ↦ (dec_user u (dec_workspace w a), err connection_limited)
  | some n ↦ (
    record a { connections = put a.connections c n },
    ok (record { user_id = u; workspace_id = w; conn_id = c; released = false }),
  )
]

unfoldable pub acquire_workspace :
    String → String → String → Admission → Admission × Result AdmissionError Permit
unfolding acquire_connection
acquire_workspace u w c a = elim (try_inc a.max_workspace (get a.workspaces w)) [
  | none ↦ (dec_user u a, err workspace_limited)
  | some n ↦ acquire_connection u w c (record a { workspaces = put a.workspaces w n })
]

-- `TryAcquire`
unfoldable pub try_acquire :
    String → String → String → Admission → Admission × Result AdmissionError Permit
unfolding acquire_workspace
try_acquire u w c a =
    if a.closed then (a, err pool_closed) else (elim (try_inc a.max_user (get a.users u)) [
      | none ↦ (a, err user_limited)
      | some n ↦ acquire_workspace u w c (record a { users = put a.users u n })
    ])

-- `Release`, on the permit and the controller. The permits that `TryAcquire` makes have all three
-- limiters.
unfoldable pub release : Permit → Admission → Permit × Admission
release p a = if p.released then (p, a) else (
  record p { released = true },
  dec_user p.user_id (dec_workspace p.workspace_id (dec_connection p.conn_id a)),
)

unfoldable pub close : Admission → Admission
close a = record a { closed = true }
