-- ===== src/SqlPolicy/Placeholder/Detection.antt =====
-- The scanner finds a placeholder behind complete tokens, and none in complete tokens alone.
use web_db.Prelude.{
  ℕ, suc, ◌+◌, ◌≡◌, refl, ◌∙◌, inl, inr, Bool, List, [], ◌∷◌, ◌++◌, Bytes, All, length, arith,
}
use web_db.SqlPolicy.EcmLexer.Tokens.{Item, IsItem, NotHead, NoClose}
use web_db.SqlPolicy.Placeholder.{Rules, step, scan_from, pass, is_dash_dash_comment}
use web_db.SqlPolicy.Placeholder.Tokens.{
  Token, plain, mark, dash, slash, quoted, block, hash_line, dash_line, dollar, token_bytes,
  after_token, render, item_list, push_all, after_tokens,
}
use web_db.SqlPolicy.Placeholder.Reading.{IsRead, AreRead, EscapesIn, OpensLine}
use web_db.SqlPolicy.Placeholder.Skips.{
  pass_over, skip_quoted_items, skip_line_body, skip_block_body, skip_dollar_body,
}

module _ (r : Rules) where
  pub scan_pass :
      (before : Bytes) (c n : ℕ) (k : Bytes)
      → step r before c k ≡ pass n
      → scan_from r before 0 (c ∷ k) ≡ scan_from r (c ∷ before) n k
  unfolding scan_from
  scan_pass before c n k e = rw (e, scan_from)

  step_quoted :
      (before : Bytes) (q : ℕ) (escapes : Bool) (items : List Item) (k : Bytes)
      → EscapesIn r before q escapes
      → All (IsItem q escapes) items
      → NotHead q k
      → step r before q (item_list q items ++ (q ∷ k)) ≡ pass (length (item_list q items) + 1)
  unfolding step
  step_quoted before q escapes items k (inl (e, f)) h left =
      ground (arith, skip_quoted_items q escapes items k (omega arith) h left)
  step_quoted before q escapes items k (inr (inl e, f)) h left =
      ground (arith, skip_quoted_items q escapes items k (omega arith) h left)
  step_quoted before q escapes items k (inr (inr e, f)) h left =
      ground (arith, skip_quoted_items q escapes items k (omega arith) h left)

  scan_quoted :
      (before : Bytes) (q : ℕ) (items : List Item) (k : Bytes)
      → IsRead r before (quoted q items) k
      → scan_from r before 0 (token_bytes (quoted q items) k)
        ≡ scan_from r (after_token (quoted q items) before) 0 k
  scan_quoted before q items k (escapes, quote, are, left) =
      scan_pass before q _ _ (step_quoted before q escapes items k quote are left)
      ∙ pass_over r (item_list q items) (q ∷ k) (q ∷ before) 1
      ∙ pass_over r (q ∷ []) k (push_all (q ∷ before) (item_list q items)) 0

  step_dash : (before k : Bytes) → ¬ OpensLine r k → step r before b'-' k ≡ pass 0
  unfolding step is_dash_dash_comment
  step_dash before [] h = refl
  step_dash before (d ∷ []) h = ground arith
  step_dash before (d ∷ e ∷ k) h = ground arith

  step_slash : (before k : Bytes) → NotHead b'*' k → step r before b'/' k ≡ pass 0
  unfolding step
  step_slash before [] h = refl
  step_slash before (d ∷ k) h = ground arith

  step_block :
      (before body k : Bytes)
      → NoClose body
      → step r before b'/' (b'*' ∷ (body ++ (b'*' ∷ b'/' ∷ k))) ≡ pass (length (b'*' ∷ body) + 2)
  unfolding step
  step_block before body k h = ground (arith, skip_block_body body k h)

  step_hash :
      (before body k : Bytes)
      → IsRead r before (hash_line body) k
      → step r before b'#' (body ++ k) ≡ pass (length body + 0)
  unfolding step
  step_hash before body k h = ground (arith, skip_line_body body k h.1 h.2)

  step_dash_line :
      (before body k : Bytes)
      → IsRead r before (dash_line body) k
      → step r before b'-' (b'-' ∷ (body ++ k)) ≡ pass (length (b'-' ∷ body) + 0)
  unfolding step is_dash_dash_comment
  step_dash_line before [] [] h =
      ground (arith, skip_line_body (b'-' ∷ []) [] (omega arith, tt) h.1)
  step_dash_line before [] (c ∷ k) h =
      ground (arith, skip_line_body (b'-' ∷ []) (c ∷ k) (omega arith, tt) h.1)
  step_dash_line before (c ∷ body) k h =
      ground (arith, skip_line_body (b'-' ∷ c ∷ body) k (omega arith, h.0) h.1)

  step_dollar :
      (before tag body k : Bytes)
      → IsRead r before (dollar tag body) k
      → step r before b'$' (tag ++ (b'$' ∷ (body ++ (b'$' ∷ (tag ++ (b'$' ∷ k))))))
        ≡ pass (length tag + suc (length body + suc (length tag + 1)))
  unfolding step
  step_dollar before tag body k h = ground (arith, skip_dollar_body tag body k h.1 h.4)

  scan_dollar :
      (before tag body k : Bytes)
      → IsRead r before (dollar tag body) k
      → scan_from r before 0 (token_bytes (dollar tag body) k)
        ≡ scan_from r (after_token (dollar tag body) before) 0 k
  unfolding scan_from
  scan_dollar before tag body k h =
      scan_pass before b'$' _ _ (step_dollar before tag body k h)
      ∙ pass_over r tag _ (b'$' ∷ before) _
      ∙ pass_over r body _ (b'$' ∷ push_all (b'$' ∷ before) tag) _
      ∙ pass_over r tag _ (b'$' ∷ push_all (b'$' ∷ push_all (b'$' ∷ before) tag) body) 1

  scan_token :
      (before : Bytes) (t : Token) (k : Bytes)
      → IsRead r before t k
      → scan_from r before 0 (token_bytes t k) ≡ scan_from r (after_token t before) 0 k
  scan_token before (plain c) k h = scan_pass before c 0 k (unfold step in ground arith)
  scan_token before (mark c) k h = scan_pass before c 0 k (unfold step in ground arith)
  scan_token before dash k h = scan_pass before b'-' 0 k (step_dash before k h)
  scan_token before slash k h = scan_pass before b'/' 0 k (step_slash before k h)
  scan_token before (quoted q items) k h = scan_quoted before q items k h
  scan_token before (block body) k h =
      scan_pass before b'/' _ _ (step_block before body k h)
      ∙ pass_over r (b'*' ∷ body) (b'*' ∷ b'/' ∷ k) (b'/' ∷ before) 2
      ∙ pass_over r (b'*' ∷ b'/' ∷ []) k (push_all (b'*' ∷ b'/' ∷ before) body) 0
  scan_token before (hash_line body) k h =
      scan_pass before b'#' _ _ (step_hash before body k h) ∙ pass_over r body k (b'#' ∷ before) 0
  scan_token before (dash_line body) k h =
      scan_pass before b'-' _ _ (step_dash_line before body k h)
      ∙ pass_over r (b'-' ∷ body) k (b'-' ∷ before) 0
  scan_token before (dollar tag body) k h = scan_dollar before tag body k h

  pub scan_tokens :
      (before : Bytes) (ts : List Token) (k : Bytes)
      → AreRead r before ts k
      → scan_from r before 0 (render ts k) ≡ scan_from r (after_tokens ts before) 0 k
  scan_tokens before [] k h = refl
  scan_tokens before (t ∷ ts) k h =
      scan_token before t (render ts k) h.0 ∙ scan_tokens (after_token t before) ts k h.1
