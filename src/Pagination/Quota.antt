-- ===== src/Pagination/Quota.antt =====
-- The state of pagination/registry.go, its quotas and their eviction. Every method takes the lock for its whole body, so a
-- method is one step. The clock's reading, the random handle and the digest function are
-- arguments. `entries` holds digests in the order in which Go's map happens to iterate.
use web_db.Prelude.{
  ℕ, zero, suc, ◌+◌, ◌-◌, Bool, true, false, ◌&&◌, ◌||◌, String, [], ◌∷◌, Option, none, some,
  str_eq, ltb, leb, if◌then◌else◌, length,
}
use web_db.Pagination.Config.{Config, normalized_config}
use web_db.Pagination.Counters.{Counters, get, increase, decrease}
use web_db.Pagination.State.{ContinuationState}
use web_db.Pagination.Entries.{EntryStatus, ready, in_flight, Entry, EntryMap, find, without}

pub record Registry : Type 0 where
  pub cfg : Config
  pub entries : EntryMap
  pub user_count : Counters
  pub ws_count : Counters
  pub conn_count : Counters
  pub global_count : ℕ
  pub user_bytes : Counters
  pub ws_bytes : Counters
  pub conn_bytes : Counters
  pub global_bytes : ℕ
  pub seq : ℕ
  pub closed : Bool

-- `New`, without the goroutine that it starts, whose rounds are calls of `CleanupExpired`.
unfoldable pub new : Config → Registry
new cfg = record {
  cfg = normalized_config cfg;
  entries = [];
  user_count = [];
  ws_count = [];
  conn_count = [];
  global_count = 0;
  user_bytes = [];
  ws_bytes = [];
  conn_bytes = [];
  global_bytes = 0;
  seq = 0;
  closed = false;
}

-- `Close`; a nil map reads as an empty one.
unfoldable pub close : Registry → Registry
close r = record r { closed = true; entries = [] }

unfoldable pub add_quota : ContinuationState → ℕ → Registry → Registry
add_quota s n r = record r {
  user_count = increase r.user_count s.user_id 1;
  ws_count = increase r.ws_count s.workspace_id 1;
  conn_count = increase r.conn_count s.connection_id 1;
  global_count = r.global_count + 1;
  user_bytes = increase r.user_bytes s.user_id n;
  ws_bytes = increase r.ws_bytes s.workspace_id n;
  conn_bytes = increase r.conn_bytes s.connection_id n;
  global_bytes = r.global_bytes + n;
}

unfoldable pub remove_quota : ContinuationState → ℕ → Registry → Registry
remove_quota s n r = record r {
  user_count = decrease r.user_count s.user_id 1;
  ws_count = decrease r.ws_count s.workspace_id 1;
  conn_count = decrease r.conn_count s.connection_id 1;
  global_count = if ltb 0 r.global_count then r.global_count - 1 else r.global_count;
  user_bytes = decrease r.user_bytes s.user_id n;
  ws_bytes = decrease r.ws_bytes s.workspace_id n;
  conn_bytes = decrease r.conn_bytes s.connection_id n;
  global_bytes = if leb n r.global_bytes then r.global_bytes - n else r.global_bytes;
}

-- `deleteEntry`, with the entry that it finds.
unfoldable pub drop_entry : String → Option Entry → Registry → Registry
unfolding remove_quota
drop_entry d none r = r
drop_entry d (some e) r = remove_quota e.state e.bytes (record r { entries = without d r.entries })

unfoldable pub delete_entry : String → Registry → Registry
unfolding drop_entry
delete_entry d r = drop_entry d (find d r.entries) r

-- The write of a new ready entry, and the quota that it takes. A Go map holds one entry for a
-- digest, so what was there is gone.
unfoldable pub insert_entry : String → ContinuationState → ℕ → ℕ → Registry → Registry
unfolding add_quota
insert_entry d s n now r = add_quota s n (record r {
  seq = r.seq + 1;
  entries =
      (
        d,
        record {
          state = s;
          status = ready;
          version = r.seq + 1;
          bytes = n;
          expires_at = s.expires_at;
          created_at = now;
        },
      )
      ∷ without d r.entries;
})

-- The condition of `evictForQuota`: there is room for one more entry of `n` bytes.
unfoldable pub has_room : ContinuationState → ℕ → Registry → Bool
has_room s n r =
    ltb r.global_count r.cfg.max_global
    && ltb (get r.user_count s.user_id) r.cfg.max_user
    && ltb (get r.ws_count s.workspace_id) r.cfg.max_ws
    && ltb (get r.conn_count s.connection_id) r.cfg.max_conn
    && leb (r.global_bytes + n) r.cfg.max_global_bytes
    && leb (get r.user_bytes s.user_id + n) r.cfg.max_user_bytes
    && leb (get r.ws_bytes s.workspace_id + n) r.cfg.max_ws_bytes
    && leb (get r.conn_bytes s.connection_id + n) r.cfg.max_conn_bytes

-- The body of `pickEvictable`'s loop: may this entry be picked, for the first dimension that is
-- over its limit?
unfoldable pub may_pick : ContinuationState → ℕ → Registry → Entry → Bool
may_pick s n r e =
    if leb r.cfg.max_user (get r.user_count s.user_id)
      || ltb r.cfg.max_user_bytes (get r.user_bytes s.user_id + n)
    then str_eq e.state.user_id s.user_id
    else if leb r.cfg.max_ws (get r.ws_count s.workspace_id)
        || ltb r.cfg.max_ws_bytes (get r.ws_bytes s.workspace_id + n)
    then str_eq e.state.workspace_id s.workspace_id
    else if leb r.cfg.max_conn (get r.conn_count s.connection_id)
        || ltb r.cfg.max_conn_bytes (get r.conn_bytes s.connection_id + n)
    then str_eq e.state.connection_id s.connection_id
    else true

-- `pick`: the candidate so far, and the next entry. A digest is 64 hexadecimal digits, so the empty
-- text that stands for no candidate is no digest; `none` is in its place.
unfoldable pub pick : Option (String × ℕ) → String → Entry → Option (String × ℕ)
pick none d e = some (d, e.expires_at)
pick (some (b, t)) d e = if ltb e.expires_at t then some (d, e.expires_at) else some (b, t)

abbrev pub is_ready : EntryStatus → Bool
is_ready ready = true
is_ready in_flight = false

unfoldable pub pick_from : (Entry → Bool) → Option (String × ℕ) → EntryMap → Option (String × ℕ)
unfolding pick
pick_from allowed best [] = best
pick_from allowed best ((d, e) ∷ es) =
    pick_from allowed (if allowed e && is_ready e.status then pick best d e else best) es

unfoldable pub pick_evictable : ContinuationState → ℕ → Registry → Option (String × ℕ)
unfolding pick_from may_pick
pick_evictable s n r = pick_from (may_pick s n r) none r.entries

-- The loop of `evictForQuota`. Each round but the last deletes an entry, so one more round than
-- there are entries is enough.
unfoldable pub evict_loop : ℕ → ContinuationState → ℕ → Registry → Registry × Bool
evict_loop zero s n r = (r, false)
evict_loop (suc fuel) s n r = if has_room s n r then (r, true) else (elim (pick_evictable s n r) [
  | none ↦ (r, false)
  | some (d, t) ↦ evict_loop fuel s n (delete_entry d r)
])

unfoldable pub evict_for_quota : ContinuationState → ℕ → Registry → Registry × Bool
evict_for_quota s n r = evict_loop (suc (length r.entries)) s n r
