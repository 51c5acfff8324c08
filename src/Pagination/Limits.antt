-- ===== src/Pagination/Limits.antt =====
-- The limits of pagination/registry.go hold of the counters, through insertion and deletion.
use web_db.Prelude.{
  ℕ, ◌+◌, ◌-◌, ◌≡◌, ◌≤◌, true, String, Option, none, some, eq_iff, arith, str_eq_refl,
}
use web_db.Pagination.Config.{Config}
use web_db.Pagination.State.{ContinuationState}
use web_db.Pagination.Counters.{Counters, get, increase, decrease, get-increase, get-decrease}
use web_db.Pagination.Entries.{Entry, find}
use web_db.Pagination.Quota.{Registry, new, has_room, delete_entry, drop_entry, insert_entry}
use web_db.Pagination.Accounting.{
  IsAccounted, Counts, weigh, one, size, user_of, ws_of, conn_of, tally-without,
}
use web_db.Pagination.Registry.{fits_bytes, same_identity}

-- No key's counter is over the limit.
abbrev pub Under : Counters → ℕ → Type 0
Under m limit = (k : String) → get m k ≤ limit

pub record IsWithin (r : Registry) : Type 0 where
  pub users : Under r.user_count r.cfg.max_user
  pub workspaces : Under r.ws_count r.cfg.max_ws
  pub connections : Under r.conn_count r.cfg.max_conn
  pub global : r.global_count ≤ r.cfg.max_global
  pub user_sizes : Under r.user_bytes r.cfg.max_user_bytes
  pub ws_sizes : Under r.ws_bytes r.cfg.max_ws_bytes
  pub conn_sizes : Under r.conn_bytes r.cfg.max_conn_bytes
  pub global_size : r.global_bytes ≤ r.cfg.max_global_bytes

-- There is room for an entry of `n` bytes under the keys of `s`.
pub record HasRoom (s : ContinuationState) (n : ℕ) (r : Registry) : Type 0 where
  pub users : get r.user_count s.user_id + 1 ≤ r.cfg.max_user
  pub workspaces : get r.ws_count s.workspace_id + 1 ≤ r.cfg.max_ws
  pub connections : get r.conn_count s.connection_id + 1 ≤ r.cfg.max_conn
  pub global : r.global_count + 1 ≤ r.cfg.max_global
  pub user_sizes : get r.user_bytes s.user_id + n ≤ r.cfg.max_user_bytes
  pub ws_sizes : get r.ws_bytes s.workspace_id + n ≤ r.cfg.max_ws_bytes
  pub conn_sizes : get r.conn_bytes s.connection_id + n ≤ r.cfg.max_conn_bytes
  pub global_size : r.global_bytes + n ≤ r.cfg.max_global_bytes

pub has_room-HasRoom :
    (s : ContinuationState) (n : ℕ) (r : Registry) → has_room s n r ≡ true → HasRoom s n r
unfolding has_room
has_room-HasRoom s n r h = ground arith

Under-increase :
    (m : Counters) (limit n : ℕ) (j : String)
    → Under m limit
    → get m j + n ≤ limit
    → Under (increase m j n) limit
Under-increase m limit n j u fits k = ground (arith, get-increase m j k n, u k)

Under-decrease :
    (m : Counters) (limit n : ℕ) (j : String) → Under m limit → Under (decrease m j n) limit
Under-decrease m limit n j u k = ground (arith, get-decrease m j k n, u k, u j)

pub insert_entry-IsWithin :
    (d : String) (s : ContinuationState) (n now : ℕ) (r : Registry)
    → IsWithin r
    → HasRoom s n r
    → IsWithin (insert_entry d s n now r)
unfolding insert_entry
insert_entry-IsWithin d s n now r w room = record {
  users = Under-increase r.user_count _ 1 s.user_id w.users room.users;
  workspaces = Under-increase r.ws_count _ 1 s.workspace_id w.workspaces room.workspaces;
  connections = Under-increase r.conn_count _ 1 s.connection_id w.connections room.connections;
  global = room.global;
  user_sizes = Under-increase r.user_bytes _ n s.user_id w.user_sizes room.user_sizes;
  ws_sizes = Under-increase r.ws_bytes _ n s.workspace_id w.ws_sizes room.ws_sizes;
  conn_sizes = Under-increase r.conn_bytes _ n s.connection_id w.conn_sizes room.conn_sizes;
  global_size = room.global_size;
}

drop_entry-IsWithin :
    (d : String) (o : Option Entry) (r : Registry) → IsWithin r → IsWithin (drop_entry d o r)
unfolding drop_entry
drop_entry-IsWithin d none r w = w
drop_entry-IsWithin d (some e) r w = record {
  users = Under-decrease r.user_count _ 1 e.state.user_id w.users;
  workspaces = Under-decrease r.ws_count _ 1 e.state.workspace_id w.workspaces;
  connections = Under-decrease r.conn_count _ 1 e.state.connection_id w.connections;
  global = ground arith;
  user_sizes = Under-decrease r.user_bytes _ e.bytes e.state.user_id w.user_sizes;
  ws_sizes = Under-decrease r.ws_bytes _ e.bytes e.state.workspace_id w.ws_sizes;
  conn_sizes = Under-decrease r.conn_bytes _ e.bytes e.state.connection_id w.conn_sizes;
  global_size = ground arith;
}

pub delete_entry-IsWithin : (d : String) (r : Registry) → IsWithin r → IsWithin (delete_entry d r)
unfolding delete_entry
delete_entry-IsWithin d r w = drop_entry-IsWithin d (find d r.entries) r w

pub new-IsWithin : (cfg : Config) → IsWithin (new cfg)
unfolding new get
new-IsWithin cfg = record {
  users = λ k. omega arith;
  workspaces = λ k. omega arith;
  connections = λ k. omega arith;
  global = omega arith;
  user_sizes = λ k. omega arith;
  ws_sizes = λ k. omega arith;
  conn_sizes = λ k. omega arith;
  global_size = omega arith;
}

-- A counter holds at least what one of its entries adds.
counted :
    (key : Entry → String) (amount : Entry → ℕ) (m : Counters) (d : String) (r : Registry)
    (e : Entry)
    → IsAccounted r
    → Counts m key amount r.entries
    → find d r.entries ≡ some e
    → amount e ≤ get m (key e)
counted key amount m d r e v c f = ground (
  arith,
  c (key e),
  tally-without (weigh key amount (key e)) d r.entries e v.distinct f,
  str_eq_refl (key e),
)

-- What a counter reads at its own key after the entry is gone.
get-decrease_self : (m : Counters) (k : String) (n : ℕ) → get (decrease m k n) k ≡ get m k - n
get-decrease_self m k n = ground (arith, get-decrease m k k n, str_eq_refl k)

slot_room :
    (m : Counters) (limit b n : ℕ) (j k : String)
    → k ≡ j
    → b ≤ get m j
    → get m k + n ≤ limit + b
    → get (decrease m j b) k + n ≤ limit
slot_room m limit b n j k same held fits = rw same (rw (get-decrease_self m j b) (ground arith))

-- The slot of a deleted entry has room for a new state of the same identity that fits in bytes.
pub slot-HasRoom :
    (d : String) (e : Entry) (s : ContinuationState) (n : ℕ) (r : Registry)
    → IsAccounted r
    → IsWithin r
    → find d r.entries ≡ some e
    → same_identity s e.state ≡ true
    → fits_bytes s n e.bytes r ≡ true
    → HasRoom s n (delete_entry d r)
unfolding delete_entry drop_entry fits_bytes same_identity
slot-HasRoom d e s n r v w f same fits =
    let same_user : s.user_id ≡ e.state.user_id =
      (eq_iff s.user_id e.state.user_id).0 (ground arith) in
    let same_ws : s.workspace_id ≡ e.state.workspace_id =
      (eq_iff s.workspace_id e.state.workspace_id).0 (ground arith) in
    let same_conn : s.connection_id ≡ e.state.connection_id =
      (eq_iff s.connection_id e.state.connection_id).0 (ground arith) in
    rw f (record {
      users =
          slot_room r.user_count _ 1 1 _ _ same_user
            (counted user_of one r.user_count d r e v v.users f) (omega (arith, w.users s.user_id));
      workspaces =
          slot_room r.ws_count _ 1 1 _ _ same_ws
            (counted ws_of one r.ws_count d r e v v.workspaces f)
            (omega (arith, w.workspaces s.workspace_id));
      connections =
          slot_room r.conn_count _ 1 1 _ _ same_conn
            (counted conn_of one r.conn_count d r e v v.connections f)
            (omega (arith, w.connections s.connection_id));
      global =
          ground (arith, w.global, v.global_count, tally-without one d r.entries e v.distinct f);
      user_sizes =
          slot_room r.user_bytes _ e.bytes n _ _ same_user
            (counted user_of size r.user_bytes d r e v v.user_sizes f) (ground arith);
      ws_sizes =
          slot_room r.ws_bytes _ e.bytes n _ _ same_ws
            (counted ws_of size r.ws_bytes d r e v v.ws_sizes f) (ground arith);
      conn_sizes =
          slot_room r.conn_bytes _ e.bytes n _ _ same_conn
            (counted conn_of size r.conn_bytes d r e v v.conn_sizes f) (ground arith);
      global_size = ground (arith, v.global_size, tally-without size d r.entries e v.distinct f);
    })
