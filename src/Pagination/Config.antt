-- ===== src/Pagination/Config.antt =====
-- `Config` of pagination/registry.go. Times are nanoseconds; sizes are bytes. Go's limits are
-- signed, and the source asks for `<= 0`: a negative limit stands here for 0.
use web_db.Prelude.{ℕ, ◌*◌, ◌^◌, ◌≤◌, ◌<◌, ◌||◌, arith, ltb, ◌==◌, if◌then◌else◌}

pub record Config : Type 0 where
  pub ttl : ℕ
  pub max_global : ℕ
  pub max_user : ℕ
  pub max_ws : ℕ
  pub max_conn : ℕ
  pub max_state_bytes : ℕ
  pub max_user_bytes : ℕ
  pub max_ws_bytes : ℕ
  pub max_conn_bytes : ℕ
  pub max_global_bytes : ℕ

-- `5 * time.Minute`
abbrev pub max_ttl : ℕ
max_ttl = 300 * 10 ^ 9

abbrev pub default_config : Config
default_config = record {
  ttl = max_ttl;
  max_global = 10000;
  max_user = 100;
  max_ws = 500;
  max_conn = 200;
  max_state_bytes = 512 * 2 ^ 10;
  max_user_bytes = 16 * 2 ^ 20;
  max_ws_bytes = 64 * 2 ^ 20;
  max_conn_bytes = 16 * 2 ^ 20;
  max_global_bytes = 512 * 2 ^ 20;
}

-- A limit that is not positive gives way to its default.
abbrev or_default : ℕ → ℕ → ℕ
or_default n d = if n == 0 then d else n

unfoldable pub normalized_config : Config → Config
normalized_config c = record {
  ttl = if c.ttl == 0 || ltb max_ttl c.ttl then max_ttl else c.ttl;
  max_global = or_default c.max_global 10000;
  max_user = or_default c.max_user 100;
  max_ws = or_default c.max_ws 500;
  max_conn = or_default c.max_conn 200;
  max_state_bytes = or_default c.max_state_bytes (512 * 2 ^ 10);
  max_user_bytes = or_default c.max_user_bytes (16 * 2 ^ 20);
  max_ws_bytes = or_default c.max_ws_bytes (64 * 2 ^ 20);
  max_conn_bytes = or_default c.max_conn_bytes (16 * 2 ^ 20);
  max_global_bytes = or_default c.max_global_bytes (512 * 2 ^ 20);
}

-- Every limit is positive, and no token lives longer than five minutes.
pub record IsNormal (c : Config) : Type 0 where
  pub ttl_positive : 0 < c.ttl
  pub ttl_bounded : c.ttl ≤ max_ttl
  pub max_global_positive : 0 < c.max_global
  pub max_user_positive : 0 < c.max_user
  pub max_ws_positive : 0 < c.max_ws
  pub max_conn_positive : 0 < c.max_conn
  pub max_state_bytes_positive : 0 < c.max_state_bytes
  pub max_user_bytes_positive : 0 < c.max_user_bytes
  pub max_ws_bytes_positive : 0 < c.max_ws_bytes
  pub max_conn_bytes_positive : 0 < c.max_conn_bytes
  pub max_global_bytes_positive : 0 < c.max_global_bytes

pub normalized_config-IsNormal : (c : Config) → IsNormal (normalized_config c)
unfolding normalized_config
normalized_config-IsNormal c = record {
  ttl_positive = ground arith;
  ttl_bounded = ground arith;
  max_global_positive = ground arith;
  max_user_positive = ground arith;
  max_ws_positive = ground arith;
  max_conn_positive = ground arith;
  max_state_bytes_positive = ground arith;
  max_user_bytes_positive = ground arith;
  max_ws_bytes_positive = ground arith;
  max_conn_bytes_positive = ground arith;
  max_global_bytes_positive = ground arith;
}
