-- ===== src/Pagination/Tests.antt =====
-- Runs of the registry of pagination/registry.go on small concrete states, and the theorems about
-- it at them.
use web_db.Prelude.{
  ◌≡◌, ◌⊎◌, refl, str_ne, true, false, String, List, [], ◌∷◌, none, some, arith, ok, err, pos,
}
use web_db.QueryPlan.Plan.{VerifiedSortPlan}
use web_db.QueryPlan.Types.{postgresql}
use web_db.Pagination.Config.{
  Config, default_config, normalized_config, IsNormal, normalized_config-IsNormal,
}
use web_db.Pagination.State.{
  ContinuationState, sum_retained, retained_bytes, state_bytes, valid_state,
}
use web_db.QueryPlan.Value.{text}
use web_db.Pagination.Counters.{get, increase, decrease, put, remove}
use web_db.Pagination.Entries.{Entry, in_flight, find, set_status, without}
use web_db.Pagination.Quota.{
  Registry, new, close, delete_entry, evict_for_quota, evict_loop, has_room, pick_evictable,
}
use web_db.Pagination.Eviction.{evict_for_quota-ends, evict_for_quota-keeps}
use web_db.Pagination.Registry.{
  Claim, owns, pagination_capacity, create, claim, rotate, rotate_found, rotate_owned, rotate_state,
  rotate_checked, fits_bytes,
}
use web_db.Pagination.Calls.Writes.{IsSound}
use web_db.Pagination.Calls.Sound.{IsKept, IsKept-open, after_calls-IsKept}
use web_db.Pagination.Calls.{
  AllDrawFresh, Call, creates, claims, cleans_up, completes, rotates, after_call, after_calls,
}
use web_db.Pagination.Closing.{IsShut, after_calls-close}
use web_db.Pagination.Ownership.{Spent, use-Spent}
use web_db.Pagination.Handles.{
  Refuses, TooLate, create-claim_in_time, create-claim_late, claim-exclusive,
}
use web_db.Pagination.Rotation.{Rotated, rotate-Rotated}

abbrev digest : String → String
digest s = s

abbrev one_slot : Config
one_slot = record default_config { ttl = 10; max_user = 1 }

abbrev by_id : VerifiedSortPlan
by_id = record {
  version = 1;
  valid = true;
  specs = record { column = "id"; base_column = "id"; ascending = true; nulls_last = true } ∷ [];
  binding = record {
    connection_id = "c";
    dialect = postgresql;
    pool_generation = pos 1;
    schema_generation = "g";
  };
}

abbrev first_page : ContinuationState
first_page = record {
  user_id = "u";
  workspace_id = "w";
  connection_id = "c";
  pool_generation = pos 1;
  schema_generation = "g";
  table_schema = "public";
  table_name = "t";
  policy_version = pos 1;
  statement_hash = "h";
  sort_plan = some by_id;
  sql = "SELECT id FROM t";
  args = [];
  last_sort_values = [];
  cumulative_count = pos 10;
  page_size = pos 10;
  max_rows = pos 100;
  timeout_ms = pos 1000;
  expires_at = 0;
}

-- A text is charged by its bytes, not its characters.
bytes_run : sum_retained (text "é€" ∷ []) ≡ 5
unfolding sum_retained retained_bytes
bytes_run = refl

-- One page's state, created at 5 under the handle `a`, and then claimed at 6.
abbrev created : Registry
created = (create digest 5 (some "a") (some first_page) (new one_slot)).0

abbrev claimed : Registry
claimed = (claim digest 6 "a" created).0

abbrev held : Claim
held = record { digest = "a"; version = 1; state = record first_page { expires_at = 15 } }

create_run : create digest 5 (some "a") (some first_page) (new one_slot) ≡ (created, ok "a")
unfolding create new normalized_config valid_state state_bytes evict_for_quota evict_loop has_room
    get
create_run = refl

claim_run : claim digest 6 "a" created ≡ (claimed, ok held)
unfolding claim create new normalized_config valid_state state_bytes evict_for_quota evict_loop
    has_room get find
claim_run = refl

-- The next page's state, and the rotation of the claim to it.
abbrev next_page : ContinuationState
next_page = record first_page { cumulative_count = pos 20 }

abbrev rotated : Registry
rotated = (rotate digest 7 (some "b") held (some next_page) claimed).0

rotate_run : rotate digest 7 (some "b") held (some next_page) claimed ≡ (rotated, ok "b")
unfolding rotate claim create new normalized_config valid_state state_bytes evict_for_quota
    evict_loop has_room get find set_status increase put decrease remove without rotate_found
    rotate_owned rotate_state rotate_checked fits_bytes
rotate_run = refl

-- The user's one slot is taken by an entry in flight, so that nothing can be evicted.
full_run : (create digest 8 (some "z") (some first_page) claimed).1 ≡ err pagination_capacity
unfolding claim create new normalized_config valid_state state_bytes evict_for_quota evict_loop
    has_room get find set_status increase put pick_evictable without delete_entry decrease
full_run = refl

-- A ready entry makes way.
evict_run : (create digest 8 (some "z") (some first_page) created).1 ≡ ok "z"
unfolding claim create new normalized_config valid_state state_bytes evict_for_quota evict_loop
    has_room get find set_status increase put pick_evictable without delete_entry decrease
evict_run = refl

-- The calls that lead there.
abbrev calls : List Call
calls = creates 5 (some "a") (some first_page) ∷ claims 6 "a" ∷ []

calls_fresh : AllDrawFresh digest calls (new one_slot)
unfolding find new normalized_config
calls_fresh = (refl, (tt, tt))

after_calls-IsKept_example : IsKept (after_calls digest calls (new one_slot))
after_calls-IsKept_example = after_calls-IsKept digest one_slot calls calls_fresh

claimed-IsSound : IsSound claimed
unfolding after_calls
claimed-IsSound =
    IsKept-open claimed
      (unfold claim create new normalized_config valid_state state_bytes evict_for_quota evict_loop
          has_room get find in
        refl)
      (after_calls-IsKept digest one_slot calls calls_fresh)

abbrev held_entry : Entry
held_entry = record {
  state = record first_page { expires_at = 15 };
  status = in_flight;
  version = 1;
  bytes = 34;
  expires_at = 15;
  created_at = 5;
}

find_claimed : find "a" claimed.entries ≡ some held_entry
unfolding claim create new normalized_config valid_state state_bytes evict_for_quota evict_loop
    has_room get find set_status
find_claimed = refl

evict_for_quota-ends_example :
    (((evict_for_quota first_page 8 claimed).1 ≡ true)
      × (has_room first_page 8 (evict_for_quota first_page 8 claimed).0 ≡ true))
    ⊎ (((evict_for_quota first_page 8 claimed).1 ≡ false)
        × (has_room first_page 8 (evict_for_quota first_page 8 claimed).0 ≡ false)
        × (pick_evictable first_page 8 (evict_for_quota first_page 8 claimed).0 ≡ none))
evict_for_quota-ends_example = evict_for_quota-ends first_page 8 claimed claimed-IsSound.accounted

evict_for_quota-keeps_example :
    find "a" (evict_for_quota first_page 8 claimed).0.entries ≡ some held_entry
evict_for_quota-keeps_example =
    evict_for_quota-keeps first_page 8 claimed "a" held_entry claimed-IsSound.accounted find_claimed
      refl

owns_run : owns held held_entry ≡ true
unfolding owns
owns_run = refl

use-Spent_example : Spent digest held (
    after_calls digest
      (claims 8 "b" ∷ [])
      (after_call digest (rotates 7 (some "b") held (some next_page)) claimed))
use-Spent_example =
    use-Spent digest held claimed held_entry claimed-IsSound.accounted find_claimed owns_run
      (rotates 7 (some "b") held (some next_page)) refl (claims 8 "b" ∷ [])

-- Another user's creation, a claim of its handle, and a clean-up in between.
abbrev other_page : ContinuationState
other_page = record first_page { user_id = "v" }

abbrev other_calls : List Call
other_calls = creates 6 (some "z") (some other_page) ∷ claims 7 "z" ∷ cleans_up 9 ∷ []

new-IsSound : IsSound (new one_slot)
unfolding after_calls
new-IsSound =
    IsKept-open (new one_slot) (unfold new in refl) (after_calls-IsKept digest one_slot [] tt)

create-claim_in_time_example :
    (c : Claim) × ((claim digest 14 "a" (after_calls digest other_calls created)).1 ≡ ok c)
    × (c.digest ≡ "a")
    × (c.state ≡ record first_page { expires_at = 15 })
unfolding new normalized_config find create valid_state state_bytes evict_for_quota evict_loop
    has_room get increase put remove without
create-claim_in_time_example =
    create-claim_in_time digest 5 14 (some "a") first_page (new one_slot) created "a" new-IsSound
      refl create_run other_calls (refl, (tt, (tt, tt)))
      (refl, (str_ne "z" "a" refl, (omega arith, tt))) (omega arith)

create-claim_late_example : TooLate digest 15 "a" (after_calls digest other_calls created)
unfolding new normalized_config
create-claim_late_example =
    create-claim_late digest 5 15 (some "a") first_page (new one_slot) created "a" create_run
      other_calls (str_ne "z" "a" refl, (tt, (tt, tt))) (omega arith)

claim-exclusive_example : Refuses digest 9 "a" (after_calls digest (completes held ∷ []) claimed)
claim-exclusive_example =
    claim-exclusive digest 6 9 "a" created claimed held claim_run (completes held ∷ []) (tt, tt)

rotate-Rotated_example : Rotated digest 7 held next_page claimed "b" rotated
rotate-Rotated_example =
    rotate-Rotated digest 7 (some "b") next_page claimed rotated "b" held rotate_run

after_calls-close_example :
    (after_calls digest calls (close claimed) ≡ close claimed)
    × IsShut digest (after_calls digest calls (close claimed))
after_calls-close_example = after_calls-close digest claimed calls

normalized_config-IsNormal_example :
    IsNormal (normalized_config (record default_config { ttl = 0 }))
normalized_config-IsNormal_example = normalized_config-IsNormal (record default_config { ttl = 0 })
