-- ===== src/SqlPolicy/Placeholder/EscapedQuotes.antt =====
-- Double-quoted MySQL strings in sqlpolicy/placeholder.go: `skipDoubleQuoted` knows no backslash.
use web_db.Prelude.{[], ◌∷◌, ◌++◌, Bytes}

-- `"\""`, the text `between`, and `"\""` again.
abbrev pub escaped_quote : Bytes → Bytes
escaped_quote k = b'"' ∷ b'\\' ∷ b'"' ∷ b'"' ∷ k

abbrev pub two_quotes : Bytes → Bytes
two_quotes between = escaped_quote (between ++ escaped_quote [])
