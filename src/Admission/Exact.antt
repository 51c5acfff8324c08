-- ===== src/Admission/Exact.antt =====
-- The counts of adapter/admission.go over any history of calls.
use web_db.Prelude.{
  ℕ, zero, suc, ◌+◌, ◌≡◌, ◌<◌, ◌⊎◌, inl, inr, refl, true, false, String, List, [], ◌∷◌, some, arith,
  ◌↔◌, by_test, Bool-cases, Option-cases, if◌then◌else◌, str_eq, eq_iff, str_eq_refl,
}
use web_db.Pagination.Counters.{Counters, get, put, get-put}
use web_db.Admission.{
  Admission, Permit, try_inc, dec, dec_user, dec_workspace, dec_connection, acquire_connection,
  acquire_workspace, try_acquire, release, close,
}
use web_db.Admission.System.{
  acquires, after_calls, Counted, releases, granted, after_call, release_at, closes, held, System,
  new_system, is_ok, IsExact, Call,
}

Counted-grant :
    (m : Counters) (limit : ℕ) (key : Permit → String) (ps : List Permit) (p : Permit) (n : ℕ)
    → Counted m limit key ps
    → p.released ≡ false
    → try_inc limit (get m (key p)) ≡ some n
    → Counted (put m (key p) n) limit key (p ∷ ps)
Counted-grant m limit key ps p n v live t = record {
  exact = λ k. ground (arith, get-put m (key p) k n, v.exact k, v.exact (key p), eq_iff (key p) k);
  under = λ k. ground (arith, v.exact k, v.exact (key p), v.under k, eq_iff (key p) k);
}

-- A step that is taken back.
Counted-undo :
    (m : Counters) (limit : ℕ) (key : Permit → String) (ps : List Permit) (j : String) (n : ℕ)
    → Counted m limit key ps
    → try_inc limit (get m j) ≡ some n
    → Counted (put (put m j n) j (dec (get (put m j n) j))) limit key ps
Counted-undo m limit key ps j n v t = record {
  exact = λ k. ground (
    arith,
    get-put (put m j n) j k (dec (get (put m j n) j)),
    get-put m j k n,
    get-put m j j n,
    v.exact k,
    v.exact j,
    eq_iff j k,
    str_eq_refl j,
  );
  under = v.under;
}

try_acquire-IsExact :
    (u w c : String) (a : Admission) (ps : List Permit)
    → IsExact (record { admission = a; permits = ps })
    → IsExact (granted ps (try_acquire u w c a))
unfolding try_acquire acquire_workspace acquire_connection
try_acquire-IsExact u w c a ps v =
    by_test (λ q. IsExact (granted ps q)) a.closed _ _ (λ _. v)
      (λ _. elim (Option-cases (try_inc a.max_user (get a.users u))) [
        | inl full ↦ rw full v
        | inr (n, t) ↦ elim (Option-cases (try_inc a.max_workspace (get a.workspaces w))) [
          | inl full ↦
              rw (t, acquire_workspace, full)
                (record {
                  users = Counted-undo a.users _ _ ps u n v.users t;
                  workspaces = v.workspaces;
                  connections = v.connections;
                })
          | inr (i, g) ↦ elim (Option-cases (try_inc a.max_conn (get a.connections c))) [
            | inl full ↦
                rw (t, acquire_workspace, g, acquire_connection, full)
                  (record {
                    users = Counted-undo a.users _ _ ps u n v.users t;
                    workspaces = Counted-undo a.workspaces _ _ ps w i v.workspaces g;
                    connections = v.connections;
                  })
            | inr (j, h) ↦
                rw (t, acquire_workspace, g, acquire_connection, h)
                  (record {
                    users = Counted-grant a.users _ _ ps _ n v.users refl t;
                    workspaces = Counted-grant a.workspaces _ _ ps _ i v.workspaces refl g;
                    connections = Counted-grant a.connections _ _ ps _ j v.connections refl h;
                  })
          ]
        ]
      ])

-- The keys that a release leaves alone.
abbrev Stays : (Permit → String) → Type 0
Stays key = (p : Permit) → key (record p { released = true }) ≡ key p

-- A release of a permit that is held: which, and what it changes.
record Freed (i : ℕ) (a : Admission) (ps : List Permit) : Type 0 where
  permit : Permit
  admission :
      (release_at i a ps).admission
      ≡ dec_user permit.user_id
          (dec_workspace permit.workspace_id (dec_connection permit.conn_id a))
  fewer :
      (key : Permit → String) (k : String)
      → Stays key
      → held key k ps
        ≡ (if str_eq (key permit) k then 1 else 0) + held key k (release_at i a ps).permits

release_at-cases :
    (i : ℕ) (a : Admission) (ps : List Permit)
    → (release_at i a ps ≡ record { admission = a; permits = ps }) ⊎ Freed i a ps
unfolding release_at release
release_at-cases i a [] = inl refl
release_at-cases zero a (p ∷ ps) = elim (Bool-cases p.released) [
  | inl gone ↦ inl (rw gone refl)
  | inr live ↦ inr (record {
    permit = p;
    admission = rw live refl;
    fewer = λ key k stays. rw (live, release_at) (ground (arith, stays p));
  })
]
release_at-cases (suc i) a (p ∷ ps) = elim (release_at-cases i a ps) [
  | inl same ↦ inl (rw same refl)
  | inr f ↦ inr (record {
    permit = f.permit;
    admission = f.admission;
    fewer = λ key k stays. omega (arith, f.fewer key k stays);
  })
]

Counted-release :
    (m : Counters) (limit : ℕ) (key : Permit → String) (ps qs : List Permit) (j : String)
    → Counted m limit key ps
    → ((k : String) → held key k ps ≡ (if str_eq j k then 1 else 0) + held key k qs)
    → Counted (put m j (dec (get m j))) limit key qs
Counted-release m limit key ps qs j v f = record {
  exact = λ k. ground (
    arith,
    get-put m j k (dec (get m j)),
    v.exact k,
    v.exact j,
    f k,
    f j,
    eq_iff j k,
    str_eq_refl j,
  );
  under = λ k. ground (arith, v.under k, f k);
}

release_at-IsExact :
    (i : ℕ) (a : Admission) (ps : List Permit)
    → IsExact (record { admission = a; permits = ps })
    → IsExact (release_at i a ps)
release_at-IsExact i a ps v = elim (release_at-cases i a ps) [
  | inl same ↦ rw same v
  | inr f ↦ record {
    users =
        rw f.admission (
          Counted-release a.users _ _ ps _ f.permit.user_id v.users (λ k. f.fewer _ k (λ p. refl)));
    workspaces = rw f.admission (
        Counted-release a.workspaces _ _ ps _ f.permit.workspace_id v.workspaces
          (λ k. f.fewer _ k (λ p. refl)));
    connections = rw f.admission (
        Counted-release a.connections _ _ ps _ f.permit.conn_id v.connections
          (λ k. f.fewer _ k (λ p. refl)));
  }
]

after_call-IsExact : (c : Call) (s : System) → IsExact s → IsExact (after_call c s)
unfolding after_call close
after_call-IsExact (acquires u w c) s v = try_acquire-IsExact u w c s.admission s.permits v
after_call-IsExact (releases i) s v = release_at-IsExact i s.admission s.permits v
after_call-IsExact closes s v = record {
  users = v.users;
  workspaces = v.workspaces;
  connections = v.connections;
}

from_IsExact : (cs : List Call) (s : System) → IsExact s → IsExact (after_calls cs s)
unfolding after_calls
from_IsExact [] s v = v
from_IsExact (c ∷ cs) s v = from_IsExact cs (after_call c s) (after_call-IsExact c s v)

new_system-IsExact : IsExact new_system
unfolding get
new_system-IsExact = record {
  users = record { exact = λ k. refl; under = λ k. omega arith };
  workspaces = record { exact = λ k. refl; under = λ k. omega arith };
  connections = record { exact = λ k. refl; under = λ k. omega arith };
}

-- After any acquisitions, refused ones included, any releases, repeated ones included, and closing,
-- on a new controller: each count of a user, a workspace or a connection is the number of permits
-- held under it, and that number is at most the limit.
pub after_calls-IsExact : (cs : List Call) → IsExact (after_calls cs new_system)
after_calls-IsExact cs = from_IsExact cs new_system new_system-IsExact

-- The second release of a permit changes nothing.
pub release-twice :
    (p : Permit) (a : Admission) → release (release p a).0 (release p a).1 ≡ release p a
unfolding release
release-twice p a =
    by_test (λ q. release q.0 q.1 ≡ q) p.released _ _ (λ e. ground arith) (λ e. refl)

-- A permit is granted exactly when the controller is open and all three counts are below their
-- limits.
pub try_acquire-is_ok :
    (u w c : String) (a : Admission)
    → (is_ok (try_acquire u w c a).1 ≡ true) ↔ (
        (a.closed ≡ false)
        × (get a.users u < a.max_user)
        × (get a.workspaces w < a.max_workspace)
        × (get a.connections c < a.max_conn))
unfolding try_acquire acquire_workspace acquire_connection
try_acquire-is_ok u w c a = (λ h. ground arith, λ h. ground arith)
