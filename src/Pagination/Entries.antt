-- ===== src/Pagination/Entries.antt =====
-- The map from digests to entries of pagination/registry.go.
use web_db.Prelude.{ℕ, ◌≢◌, String, List, [], ◌∷◌, Option, none, some, str_eq, if◌then◌else◌}
use web_db.Pagination.State.{ContinuationState}

pub data EntryStatus : Type 0 where
  ready in_flight : EntryStatus

pub record Entry : Type 0 where
  pub state : ContinuationState
  pub status : EntryStatus
  pub version : ℕ
  pub bytes : ℕ
  pub expires_at : ℕ
  pub created_at : ℕ

abbrev pub EntryMap : Type 0
EntryMap = List (String × Entry)

-- `r.entries[d]`
unfoldable pub find : String → EntryMap → Option Entry
find d [] = none
find d ((k, e) ∷ es) = if str_eq k d then some e else find d es

-- `delete(r.entries, d)`; the map holds each digest once.
unfoldable pub without : String → EntryMap → EntryMap
without d [] = []
without d ((k, e) ∷ es) = let rest = without d es in if str_eq k d then rest else (k, e) ∷ rest

-- `e.status = statusInFlight`, through the pointer that the map holds.
unfoldable pub set_status : String → EntryStatus → EntryMap → EntryMap
set_status d status [] = []
set_status d status ((k, e) ∷ es) =
    (k, if str_eq k d then record e { status = status } else e) ∷ set_status d status es

-- No digest stands twice.
abbrev pub Absent : String → EntryMap → Type 0
Absent d [] = Unit
Absent d ((k, e) ∷ es) = (k ≢ d) × Absent d es

abbrev pub Distinct : EntryMap → Type 0
Distinct [] = Unit
Distinct ((k, e) ∷ es) = Absent k es × Distinct es
