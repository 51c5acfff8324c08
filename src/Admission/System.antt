-- ===== src/Admission/System.antt =====
-- Sequences of calls of adapter/admission.go, and what the counts ought to be.
use web_db.Prelude.{
  ℕ, zero, suc, ◌+◌, ◌≡◌, ◌≤◌, Bool, true, false, String, List, [], ◌∷◌, if◌then◌else◌, str_eq,
  Result, ok, err,
}
use web_db.Pagination.Counters.{Counters, get}
use web_db.Admission.{
  new_admission_controller, Admission, Permit, AdmissionError, try_acquire, release, close,
}

-- The controller, and every permit that it gave.
pub record System : Type 0 where
  pub admission : Admission
  pub permits : List Permit

pub data Call : Type 0 where
  acquires : String → String → String → Call
  releases : ℕ → Call
  closes : Call

abbrev pub granted : List Permit → Admission × Result AdmissionError Permit → System
granted ps (a, ok p) = record { admission = a; permits = p ∷ ps }
granted ps (a, err e) = record { admission = a; permits = ps }

-- The release of the `i`-th permit, if there is one.
unfoldable pub release_at : ℕ → Admission → List Permit → System
unfolding release
release_at i a [] = record { admission = a; permits = [] }
release_at zero a (p ∷ ps) = record { admission = (release p a).1; permits = (release p a).0 ∷ ps }
release_at (suc i) a (p ∷ ps) =
    let rest = release_at i a ps in
    record { admission = rest.admission; permits = p ∷ rest.permits }

unfoldable pub after_call : Call → System → System
unfolding release_at try_acquire close
after_call (acquires u w c) s = granted s.permits (try_acquire u w c s.admission)
after_call (releases i) s = release_at i s.admission s.permits
after_call closes s = record s { admission = close s.admission }

unfoldable pub after_calls : List Call → System → System
unfolding after_call
after_calls [] s = s
after_calls (c ∷ cs) s = after_calls cs (after_call c s)

-- How many permits are held under the key `k`.
abbrev pub held : (Permit → String) → String → List Permit → ℕ
held key k [] = 0
held key k (p ∷ ps) = (if p.released then 0 else if str_eq (key p) k then 1 else 0) + held key k ps

-- The counts are those of the permits held, and none is over its limit.
pub record Counted (m : Counters) (limit : ℕ) (key : Permit → String) (ps : List Permit)
    : Type 0 where
  pub exact : (k : String) → get m k ≡ held key k ps
  pub under : (k : String) → held key k ps ≤ limit

pub record IsExact (s : System) : Type 0 where
  pub users : Counted s.admission.users s.admission.max_user (λ p. p.user_id) s.permits
  pub workspaces :
      Counted s.admission.workspaces s.admission.max_workspace (λ p. p.workspace_id) s.permits
  pub connections : Counted s.admission.connections s.admission.max_conn (λ p. p.conn_id) s.permits

-- A new controller, which gave no permit.
abbrev pub new_system : System
new_system = record { admission = new_admission_controller; permits = [] }

abbrev pub is_ok : {A : Type 0} → Result AdmissionError A → Bool
is_ok (ok x) = true
is_ok (err e) = false
