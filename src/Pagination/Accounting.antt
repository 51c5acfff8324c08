-- ===== src/Pagination/Accounting.antt =====
-- The quota counters of pagination/registry.go say what the entries add up to.
mod Tally
pub use Tally.*
use web_db.Prelude.{ℕ, ◌+◌, ◌≡◌, ◌≤◌, refl, sym, ◌∙◌, String, [], ◌∷◌, Option, none, some, arith}
use web_db.Pagination.Counters.{get}
use web_db.Pagination.Entries.{
  EntryStatus, ready, Entry, EntryMap, find, without, set_status, Absent, Distinct,
}
use web_db.Pagination.Config.{Config}
use web_db.Pagination.State.{ContinuationState}
use web_db.Pagination.Quota.{Registry, delete_entry, drop_entry, insert_entry, new}

abbrev pub user_of : Entry → String
user_of e = e.state.user_id

abbrev pub ws_of : Entry → String
ws_of e = e.state.workspace_id

abbrev pub conn_of : Entry → String
conn_of e = e.state.connection_id

abbrev pub one : Entry → ℕ
one e = 1

abbrev pub size : Entry → ℕ
size e = e.bytes

-- No entry has a version that is still to be given.
abbrev pub VersionsWithin : ℕ → EntryMap → Type 0
VersionsWithin n [] = Unit
VersionsWithin n ((d, e) ∷ es) = (e.version ≤ n) × VersionsWithin n es

-- The counters are what the entries add up to, each digest stands once, and versions are old.
pub record IsAccounted (r : Registry) : Type 0 where
  pub distinct : Distinct r.entries
  pub users : Counts r.user_count user_of one r.entries
  pub workspaces : Counts r.ws_count ws_of one r.entries
  pub connections : Counts r.conn_count conn_of one r.entries
  pub user_sizes : Counts r.user_bytes user_of size r.entries
  pub ws_sizes : Counts r.ws_bytes ws_of size r.entries
  pub conn_sizes : Counts r.conn_bytes conn_of size r.entries
  pub global_count : r.global_count ≡ tally one r.entries
  pub global_size : r.global_bytes ≡ tally size r.entries
  pub versions : VersionsWithin r.seq r.entries

VersionsWithin-without :
    (n : ℕ) (d : String) (es : EntryMap) → VersionsWithin n es → VersionsWithin n (without d es)
unfolding without
VersionsWithin-without n d [] h = tt
VersionsWithin-without n d ((k, e) ∷ es) h = ground (arith, VersionsWithin-without n d es h.1)

VersionsWithin-set_status :
    (n : ℕ) (d : String) (status : EntryStatus) (es : EntryMap)
    → VersionsWithin n es
    → VersionsWithin n (set_status d status es)
unfolding set_status
VersionsWithin-set_status n d status [] h = tt
VersionsWithin-set_status n d status ((k, e) ∷ es) h =
    (ground arith, VersionsWithin-set_status n d status es h.1)

VersionsWithin-grow : (n : ℕ) (es : EntryMap) → VersionsWithin n es → VersionsWithin (n + 1) es
VersionsWithin-grow n [] h = tt
VersionsWithin-grow n ((k, e) ∷ es) h = (omega (arith, h.0), VersionsWithin-grow n es h.1)

Absent-set_status :
    (d j : String) (status : EntryStatus) (es : EntryMap)
    → Absent j es
    → Absent j (set_status d status es)
unfolding set_status
Absent-set_status d j status [] h = tt
Absent-set_status d j status ((k, e) ∷ es) h = (h.0, Absent-set_status d j status es h.1)

Distinct-set_status :
    (d : String) (status : EntryStatus) (es : EntryMap)
    → Distinct es
    → Distinct (set_status d status es)
unfolding set_status
Distinct-set_status d status [] h = tt
Distinct-set_status d status ((k, e) ∷ es) h =
    (Absent-set_status d k status es h.0, Distinct-set_status d status es h.1)

pub delete_entry-IsAccounted :
    (d : String) (r : Registry) → IsAccounted r → IsAccounted (delete_entry d r)
delete_entry-IsAccounted d r v = unfold delete_entry in at_entry (find d r.entries) refl
  where
    at_entry : (o : Option Entry) → find d r.entries ≡ o → IsAccounted (drop_entry d o r)
    at_entry none f = unfold drop_entry in v
    at_entry (some e) f =
        unfold drop_entry in
        record {
          distinct = Distinct-without d r.entries v.distinct;
          users = Counts-without user_of one r.user_count r.entries v.users d e v.distinct f;
          workspaces = Counts-without ws_of one r.ws_count r.entries v.workspaces d e v.distinct f;
          connections =
              Counts-without conn_of one r.conn_count r.entries v.connections d e v.distinct f;
          user_sizes =
              Counts-without user_of size r.user_bytes r.entries v.user_sizes d e v.distinct f;
          ws_sizes = Counts-without ws_of size r.ws_bytes r.entries v.ws_sizes d e v.distinct f;
          conn_sizes =
              Counts-without conn_of size r.conn_bytes r.entries v.conn_sizes d e v.distinct f;
          global_count =
              ground (arith, v.global_count, tally-without one d r.entries e v.distinct f);
          global_size =
              ground (arith, v.global_size, tally-without size d r.entries e v.distinct f);
          versions = VersionsWithin-without r.seq d r.entries v.versions;
        }

pub insert_entry-IsAccounted :
    (d : String) (s : ContinuationState) (n now : ℕ) (r : Registry)
    → IsAccounted r
    → find d r.entries ≡ none
    → IsAccounted (insert_entry d s n now r)
unfolding insert_entry
insert_entry-IsAccounted d s n now r v f =
    let e : Entry = record {
      state = s;
      status = ready;
      version = r.seq + 1;
      bytes = n;
      expires_at = s.expires_at;
      created_at = now;
    } in
    record {
      distinct = (Absent-without_self d r.entries, Distinct-without d r.entries v.distinct);
      users = Counts-insert user_of one r.user_count r.entries v.users d e f;
      workspaces = Counts-insert ws_of one r.ws_count r.entries v.workspaces d e f;
      connections = Counts-insert conn_of one r.conn_count r.entries v.connections d e f;
      user_sizes = Counts-insert user_of size r.user_bytes r.entries v.user_sizes d e f;
      ws_sizes = Counts-insert ws_of size r.ws_bytes r.entries v.ws_sizes d e f;
      conn_sizes = Counts-insert conn_of size r.conn_bytes r.entries v.conn_sizes d e f;
      global_count = omega (arith, v.global_count, tally-absent one d r.entries f);
      global_size = omega (arith, v.global_size, tally-absent size d r.entries f);
      versions = (
        omega arith,
        VersionsWithin-without _ d r.entries (VersionsWithin-grow r.seq r.entries v.versions),
      );
    }

pub set_status-IsAccounted :
    (d : String) (status : EntryStatus) (r : Registry)
    → IsAccounted r
    → IsAccounted (record r { entries = set_status d status r.entries })
set_status-IsAccounted d status r v = record {
  distinct = Distinct-set_status d status r.entries v.distinct;
  users = λ k. v.users k ∙ sym (tally-set_status _ d status r.entries (λ e. refl));
  workspaces = λ k. v.workspaces k ∙ sym (tally-set_status _ d status r.entries (λ e. refl));
  connections = λ k. v.connections k ∙ sym (tally-set_status _ d status r.entries (λ e. refl));
  user_sizes = λ k. v.user_sizes k ∙ sym (tally-set_status _ d status r.entries (λ e. refl));
  ws_sizes = λ k. v.ws_sizes k ∙ sym (tally-set_status _ d status r.entries (λ e. refl));
  conn_sizes = λ k. v.conn_sizes k ∙ sym (tally-set_status _ d status r.entries (λ e. refl));
  global_count = v.global_count ∙ sym (tally-set_status _ d status r.entries (λ e. refl));
  global_size = v.global_size ∙ sym (tally-set_status _ d status r.entries (λ e. refl));
  versions = VersionsWithin-set_status r.seq d status r.entries v.versions;
}

pub new-IsAccounted : (cfg : Config) → IsAccounted (new cfg)
unfolding new get
new-IsAccounted cfg = record {
  distinct = tt;
  users = λ k. refl;
  workspaces = λ k. refl;
  connections = λ k. refl;
  user_sizes = λ k. refl;
  ws_sizes = λ k. refl;
  conn_sizes = λ k. refl;
  global_count = refl;
  global_size = refl;
  versions = tt;
}
