-- ===== src/Admission/Tests.antt =====
-- A run of adapter/admission.go, and the theorems about it there.
use web_db.Prelude.{◌≡◌, ◌<◌, ◌↔◌, refl, true, false, List, [], ◌∷◌, err}
use web_db.Pagination.Counters.{get, put}
use web_db.Admission.{Permit, user_limited, try_acquire, release, new_admission_controller}
use web_db.Admission.System.{Call, acquires, releases, new_system, after_calls, IsExact, is_ok}
use web_db.Admission.Exact.{after_calls-IsExact, release-twice, try_acquire-is_ok}

abbrev calls : List Call
calls =
    acquires "u" "w" "c"
    ∷ acquires "u" "w" "d"
    ∷ acquires "u" "v" "c"
    ∷ releases 1
    ∷ releases 1
    ∷ []

-- The third permit is one too many for the user.
refuse_run :
    (try_acquire "u" "v" "c"
      (after_calls (acquires "u" "w" "c" ∷ acquires "u" "w" "d" ∷ []) new_system).admission).1
    ≡ err user_limited
unfolding after_calls get put try_acquire
refuse_run = refl

after_calls-IsExact_example : IsExact (after_calls calls new_system)
after_calls-IsExact_example = after_calls-IsExact calls

abbrev permit : Permit
permit = record { user_id = "u"; workspace_id = "w"; conn_id = "c"; released = false }

release-twice_example :
    release
      (release permit (after_calls calls new_system).admission).0
      (release permit (after_calls calls new_system).admission).1
    ≡ release permit (after_calls calls new_system).admission
release-twice_example = release-twice permit (after_calls calls new_system).admission

try_acquire-is_ok_example :
    (is_ok (try_acquire "u" "w" "c" new_admission_controller).1 ≡ true)
    ↔ ((false ≡ false) × (get [] "u" < 2) × (get [] "w" < 10) × (get [] "c" < 5))
try_acquire-is_ok_example = try_acquire-is_ok "u" "w" "c" new_admission_controller
