-- ===== src/Pagination/Registry.antt =====
-- The methods of `Registry` and `Claim` in pagination/registry.go. One reading of the clock, `now`,
-- stands for all that a method takes: it holds the lock throughout, and `createdAt` is never read.
use web_db.Prelude.{
  ℕ, ◌+◌, Bool, true, false, not, ◌&&◌, String, [], ◌∷◌, Option, none, some, str_eq, ltb, leb, ◌==◌,
  if◌then◌else◌, Result, ok, err,
}
use web_db.Pagination.Counters.{get}
use web_db.Pagination.State.{ContinuationState, state_bytes, valid_state}
use web_db.Pagination.Entries.{in_flight, Entry, EntryMap, find, set_status}
use web_db.Pagination.Quota.{Registry, is_ready, delete_entry, insert_entry, evict_for_quota}

pub data ErrorCode : Type 0 where
  invalid_page_token pagination_capacity registry_closed handle_generation : ErrorCode

-- A claim's digest and version, and the state that it was given.
pub record Claim : Type 0 where
  pub digest : String
  pub version : ℕ
  pub state : ContinuationState

abbrev pub refuse : {A : Type 0} → Registry → ErrorCode → Registry × Result ErrorCode A
refuse r code = (r, err code)

-- The rest of `Create`, behind the eviction: `genHandle` may fail.
unfoldable pub create_evicted :
    (String → String)
    → ℕ
    → Option String
    → ContinuationState
    → ℕ
    → Registry × Bool
    → Registry × Result ErrorCode String
unfolding insert_entry
create_evicted digest now handle s n (r, false) = refuse r pagination_capacity
create_evicted digest now none s n (r, true) = refuse r handle_generation
create_evicted digest now (some h) s n (r, true) = (insert_entry (digest h) s n now r, ok h)

unfoldable pub create_valid :
    (String → String)
    → ℕ
    → Option String
    → ContinuationState
    → Registry
    → Registry × Result ErrorCode String
unfolding create_evicted
create_valid digest now handle s r =
    let n = state_bytes s in
    if ltb r.cfg.max_state_bytes n
    then refuse r pagination_capacity
    else create_evicted digest now handle s n (evict_for_quota s n r)

-- `Create`; `none` is a nil state.
unfoldable pub create :
    (String → String)
    → ℕ
    → Option String
    → Option ContinuationState
    → Registry
    → Registry × Result ErrorCode String
unfolding create_valid
create digest now handle none r =
    if r.closed then refuse r registry_closed else refuse r invalid_page_token
create digest now handle (some s) r =
    if r.closed
    then refuse r registry_closed
    else if valid_state s
    then create_valid digest now handle (record s { expires_at = now + r.cfg.ttl }) r
    else refuse r invalid_page_token

-- `Claim`, on the entry that it finds.
unfoldable pub claim_found :
    String → ℕ → Option Entry → Registry → Registry × Result ErrorCode Claim
claim_found d now none r = refuse r invalid_page_token
claim_found d now (some e) r =
    if is_ready e.status
    then (if ltb now e.expires_at
        then (
          record r { entries = set_status d in_flight r.entries },
          ok (record { digest = d; version = e.version; state = e.state }),
        )
        else refuse (delete_entry d r) invalid_page_token)
    else refuse r invalid_page_token

unfoldable pub claim : (String → String) → ℕ → String → Registry → Registry × Result ErrorCode Claim
unfolding claim_found
claim digest now handle r =
    if r.closed
    then refuse r registry_closed
    else claim_found (digest handle) now (find (digest handle) r.entries) r

unfoldable pub revoke_found : String → Option Entry → Registry → Registry
revoke_found d none r = r
revoke_found d (some e) r = if is_ready e.status then delete_entry d r else r

unfoldable pub revoke : (String → String) → String → Registry → Registry
unfolding revoke_found
revoke digest handle r =
    if r.closed then r else revoke_found (digest handle) (find (digest handle) r.entries) r

-- `CleanupExpired`: Go allows the deletion of the entry that the loop stands at.
unfoldable pub cleanup_from : ℕ → EntryMap → Registry → Registry
cleanup_from now [] r = r
cleanup_from now ((d, e) ∷ es) r =
    cleanup_from now es (if ltb now e.expires_at then r else delete_entry d r)

unfoldable pub cleanup_expired : ℕ → Registry → Registry
unfolding cleanup_from
cleanup_expired now r = cleanup_from now r.entries r

-- `e.status == statusInFlight && e.version == c.version`
unfoldable pub owns : Claim → Entry → Bool
owns c e = not (is_ready e.status) && e.version == c.version

-- `fitsBytes` with net = n - old: the difference may be negative, so `old` stands on the other side.
unfoldable pub fits_bytes : ContinuationState → ℕ → ℕ → Registry → Bool
fits_bytes s n old r =
    leb (r.global_bytes + n) (r.cfg.max_global_bytes + old)
    && leb (get r.user_bytes s.user_id + n) (r.cfg.max_user_bytes + old)
    && leb (get r.ws_bytes s.workspace_id + n) (r.cfg.max_ws_bytes + old)
    && leb (get r.conn_bytes s.connection_id + n) (r.cfg.max_conn_bytes + old)

unfoldable pub same_identity : ContinuationState → ContinuationState → Bool
same_identity s t =
    str_eq s.user_id t.user_id
    && str_eq s.workspace_id t.workspace_id
    && str_eq s.connection_id t.connection_id

-- The end of `Rotate`: the old entry makes way for the new one.
unfoldable pub rotate_write :
    (String → String)
    → ℕ
    → Option String
    → String
    → ContinuationState
    → Registry
    → Registry × Result ErrorCode String
unfolding insert_entry
rotate_write digest now none d s r = refuse (delete_entry d r) handle_generation
rotate_write digest now (some h) d s r =
    (insert_entry (digest h) s (state_bytes s) now (delete_entry d r), ok h)

unfoldable pub rotate_checked :
    (String → String)
    → ℕ
    → Option String
    → String
    → Entry
    → ContinuationState
    → Registry
    → Registry × Result ErrorCode String
unfolding rotate_write fits_bytes
rotate_checked digest now handle d e s r =
    if ltb r.cfg.max_state_bytes (state_bytes s)
    then refuse (delete_entry d r) pagination_capacity
    else if fits_bytes s (state_bytes s) e.bytes r
    then rotate_write digest now handle d s r
    else refuse (delete_entry d r) pagination_capacity

unfoldable pub rotate_state :
    (String → String)
    → ℕ
    → Option String
    → String
    → Entry
    → Option ContinuationState
    → Registry
    → Registry × Result ErrorCode String
unfolding rotate_checked same_identity
rotate_state digest now handle d e none r = refuse (delete_entry d r) invalid_page_token
rotate_state digest now handle d e (some s) r =
    if valid_state s && same_identity s e.state
    then rotate_checked digest now handle d e (record s { expires_at = e.expires_at }) r
    else refuse (delete_entry d r) invalid_page_token

unfoldable pub rotate_owned :
    (String → String)
    → ℕ
    → Option String
    → String
    → Entry
    → Option ContinuationState
    → Registry
    → Registry × Result ErrorCode String
unfolding rotate_state
rotate_owned digest now handle d e new_state r =
    if ltb now e.expires_at
    then rotate_state digest now handle d e new_state r
    else refuse (delete_entry d r) invalid_page_token

unfoldable pub rotate_found :
    (String → String)
    → ℕ
    → Option String
    → Claim
    → Option Entry
    → Option ContinuationState
    → Registry
    → Registry × Result ErrorCode String
unfolding rotate_owned owns
rotate_found digest now handle c none new_state r = refuse r invalid_page_token
rotate_found digest now handle c (some e) new_state r =
    if owns c e
    then rotate_owned digest now handle c.digest e new_state r
    else refuse r invalid_page_token

unfoldable pub rotate :
    (String → String)
    → ℕ
    → Option String
    → Claim
    → Option ContinuationState
    → Registry
    → Registry × Result ErrorCode String
unfolding rotate_found
rotate digest now handle c new_state r =
    rotate_found digest now handle c (find c.digest r.entries) new_state r

unfoldable pub finish_found : Claim → Option Entry → Registry → Registry
unfolding owns
finish_found c none r = r
finish_found c (some e) r = if owns c e then delete_entry c.digest r else r

-- `Complete` and `Abort` do the same; neither returns an error.
unfoldable pub complete : Claim → Registry → Registry
unfolding finish_found
complete c r = finish_found c (find c.digest r.entries) r

unfoldable pub abort : Claim → Registry → Registry
unfolding finish_found
abort c r = finish_found c (find c.digest r.entries) r
