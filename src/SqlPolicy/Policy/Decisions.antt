-- ===== src/SqlPolicy/Policy/Decisions.antt =====
-- What `Decide` of sqlpolicy/policy.go lets through, on every branch.
mod Reads
pub use Reads.*
use web_db.Prelude.{
  ◌≡◌, ◌≢◌, refl, ◌∙◌, sym, inl, inr, ◌↔◌, Bool, true, false, [], ◌∷◌, Bytes, ok, err, Result,
  arith, Bool-cases, ◌||◌,
}
use web_db.SqlPolicy.Types.{
  Dialect, PolicyDecision, postgresql, my_sql, unknown_dialect, allowed_code, MySqlLexerMode,
  LexicalFeatures, empty_sql, zero_classification, ClassificationResult,
}
use web_db.SqlPolicy.EcmLexer.{scan, LexError}
use web_db.SqlPolicy.EcmLexer.Exposure.{Exposed}
use web_db.SqlPolicy.EcmLexer.Exact.{scan-Exposed}
use web_db.SqlPolicy.Classifier.{Parser, normalize_sql, classify}
use web_db.SqlPolicy.Policy.{
  apply_policy, decide, reject, decide_dialect, decide_pg, decide_my_sql, after_scan,
}

module _ (pg my : Parser) (d : Dialect) (mode : MySqlLexerMode) where
  decide_blank :
      (sql : Bytes)
      → normalize_sql sql ≡ []
      → decide pg my d sql mode ≡ reject empty_sql zero_classification
  unfolding decide
  decide_blank [] e = refl
  decide_blank (c ∷ cs) e = rw (e, decide)

  decide_text :
      (sql n : Bytes)
      → normalize_sql sql ≡ n
      → n ≢ []
      → decide pg my d sql mode ≡ decide_dialect pg my d sql mode
  unfolding decide normalize_sql
  decide_text sql [] e h = absurd (h refl)
  decide_text [] (c ∷ cs) e h = absurd (ground arith)
  decide_text (b ∷ bs) (c ∷ cs) e h = rw (e, decide)

decide_dialect-allowed :
    (pg my : Parser) (d : Dialect) (mode : MySqlLexerMode) (sql n : Bytes)
    → normalize_sql sql ≡ n
    → (decide pg my d sql mode).allowed ≡ true
    → (decide_dialect pg my d sql mode).allowed ≡ true
decide_dialect-allowed pg my d mode sql [] e h =
    absurd (ground (arith, decide_blank pg my d mode sql e))
decide_dialect-allowed pg my d mode sql (c ∷ cs) e h =
    rw (decide_text pg my d mode sql (c ∷ cs) e (λ q. cc)) at h

-- PostgreSQL text is allowed exactly when it is not blank, parses as one statement, that
-- statement is a SELECT or an EXPLAIN, and none of the ten forbidden features shows in it.
pub decide-postgresql :
    (pg my : Parser) (sql : Bytes) (mode : MySqlLexerMode)
    → ((decide pg my postgresql sql mode).allowed ≡ true) ↔ SingleRead pg sql
unfolding decide_dialect decide_pg
decide-postgresql pg my sql mode = (
  λ h.
      allowed_shape pg sql (normalize_sql sql) refl
        (decide_dialect-allowed pg my postgresql mode sql _ refl h),
  λ r.
      rw (decide_text pg my postgresql mode sql _ refl r.not_blank)
        (allowed_of_read pg sql r (normalize_sql sql) refl),
)

apply_policy_lexical :
    (c : ClassificationResult) (l : LexicalFeatures)
    → (apply_policy (record c { lexical_features = l })).allowed ≡ (apply_policy c).allowed
unfolding apply_policy
apply_policy_lexical c l = ground arith

-- What MySQL text must be to be allowed.
pub record MySqlAllowed (my : Parser) (sql : Bytes) (mode : MySqlLexerMode) : Type 1 where
  pub no_ansi_quotes : mode.ansi_quotes ≡ false
  pub backslashes_escape : mode.no_backslash_escapes ≡ false
  pub no_exec_comment : ¬ Exposed mode sql
  pub single_read : SingleRead my sql

after_scan-allowed :
    (pg my : Parser) (sql : Bytes) (r : Result LexError Bool)
    → (after_scan pg my sql r).allowed ≡ true
    → (r ≡ ok false) × ((apply_policy (classify my sql)).allowed ≡ true)
unfolding after_scan
after_scan-allowed pg my sql (err e) h = absurd (ground arith)
after_scan-allowed pg my sql (ok true) h = absurd (ground arith)
after_scan-allowed pg my sql (ok false) h =
    (refl, sym (apply_policy_lexical (classify my sql) _) ∙ h)

-- MySQL text that is allowed is read in the one supported session mode, holds no executable
-- comment outside quotes and comments, and is a single SELECT or EXPLAIN that only reads.
pub decide-my_sql :
    (pg my : Parser) (sql : Bytes) (mode : MySqlLexerMode)
    → (decide pg my my_sql sql mode).allowed ≡ true
    → MySqlAllowed my sql mode
unfolding decide_dialect decide_my_sql
decide-my_sql pg my sql mode h =
    let in_dialect = decide_dialect-allowed pg my my_sql mode sql _ refl h in
    elim (Bool-cases (mode.ansi_quotes || mode.no_backslash_escapes)) [
      | inl unsupported_mode ↦ absurd (ground arith)
      | inr supported ↦
          (let (clean, reads) = after_scan-allowed pg my sql (scan mode sql) (ground arith) in
            record {
              no_ansi_quotes = ground arith;
              backslashes_escape = ground arith;
              no_exec_comment = λ e. absurd (ground (arith, (scan-Exposed mode sql).1 e));
              single_read = allowed_shape my sql (normalize_sql sql) refl reads;
            })
    ]

abbrev Agrees : PolicyDecision → Type 0
Agrees r = (r.allowed ≡ true) ↔ (r.reason_code ≡ allowed_code)

apply_policy-Agrees : (c : ClassificationResult) → Agrees (apply_policy c)
unfolding apply_policy
apply_policy-Agrees c = (λ h. ground arith, λ h. ground arith)

after_scan-Agrees :
    (pg my : Parser) (sql : Bytes) (r : Result LexError Bool) → Agrees (after_scan pg my sql r)
unfolding after_scan
after_scan-Agrees pg my sql (err e) = (λ h. cc, λ h. cc)
after_scan-Agrees pg my sql (ok true) = (λ h. cc, λ h. cc)
after_scan-Agrees pg my sql (ok false) = apply_policy-Agrees _

decide_dialect-Agrees :
    (pg my : Parser) (d : Dialect) (sql : Bytes) (mode : MySqlLexerMode)
    → Agrees (decide_dialect pg my d sql mode)
unfolding decide_dialect decide_pg decide_my_sql
decide_dialect-Agrees pg my postgresql sql mode = apply_policy-Agrees _
decide_dialect-Agrees pg my my_sql sql mode =
    elim (Bool-cases (mode.ansi_quotes || mode.no_backslash_escapes)) [
      | inl e ↦ rw e (λ h. cc, λ h. cc)
      | inr e ↦ rw e (after_scan-Agrees pg my sql (scan mode sql))
    ]
decide_dialect-Agrees pg my unknown_dialect sql mode = (λ h. cc, λ h. cc)

decide-Agrees :
    (pg my : Parser) (d : Dialect) (sql n : Bytes) (mode : MySqlLexerMode)
    → normalize_sql sql ≡ n
    → Agrees (decide pg my d sql mode)
decide-Agrees pg my d sql [] mode e = rw (decide_blank pg my d mode sql e) (λ h. cc, λ h. cc)
decide-Agrees pg my d sql (c ∷ cs) mode e =
    rw (decide_text pg my d mode sql (c ∷ cs) e (λ q. cc)) (decide_dialect-Agrees pg my d sql mode)

-- The verdict and the reason code agree on every branch, blank text and unknown dialects
-- included: a decision is allowed exactly when its code is `allowed`.
pub decide-reason_code :
    (pg my : Parser) (d : Dialect) (sql : Bytes) (mode : MySqlLexerMode)
    → ((decide pg my d sql mode).allowed ≡ true)
      ↔ ((decide pg my d sql mode).reason_code ≡ allowed_code)
decide-reason_code pg my d sql mode = decide-Agrees pg my d sql _ mode refl
