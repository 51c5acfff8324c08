-- ===== src/SqlPolicy/SessionMode/Supported.antt =====
-- Which session modes the policy accepts.
use web_db.Prelude.{
  ◌≡◌, refl, ◌≢◌, ◌⊎◌, inl, inr, ◌↔◌, true, List, [], ◌∷◌, Bytes, All, ok, arith, Bool-cases,
  bytes_eq, bytes_eq→eq, In,
}
use web_db.SqlPolicy.Types.{MySqlLexerMode}
use web_db.SqlPolicy.Text.{trim_space}
use web_db.SqlPolicy.SessionMode.{
  ModeName, quotes, no_backslash, harmless, syntax, unknown, one_of, harmless_names, mode_name,
  supported, read_names, names_of, read_trimmed, mode_from_session,
}

one_of→In : (name : Bytes) (ns : List Bytes) → one_of name ns ≡ true → In name ns
unfolding one_of
one_of→In name [] h = cc
one_of→In name (n ∷ ns) h = elim (Bool-cases (bytes_eq name n)) [
  | inl e ↦ inl (bytes_eq→eq name n e)
  | inr e ↦ inr (one_of→In name ns (rw e at h))
]

-- The lists are disjoint: a harmless name is taken for nothing else.
In-mode_name :
    (ns : List Bytes)
    → All (λ n. mode_name n ≡ harmless) ns
    → (name : Bytes) → In name ns
    → mode_name name ≡ harmless
In-mode_name [] h name l = absurd l
In-mode_name (n ∷ ns) h name (inl e) = rw e h.0
In-mode_name (n ∷ ns) h name (inr l) = In-mode_name ns h.1 name l

All-harmless : All (λ n. mode_name n ≡ harmless) harmless_names
unfolding mode_name
All-harmless = search depth 20

mode_name-In : (name : Bytes) → mode_name name ≡ harmless → In name harmless_names
unfolding mode_name
mode_name-In name h = one_of→In name harmless_names (ground arith)

-- A name that the loop passes over.
abbrev pub IsHarmless : Bytes → Type 0
IsHarmless name = In name harmless_names

In-nonempty : (name : Bytes) → IsHarmless name → name ≢ []
unfolding mode_name
In-nonempty [] l e = absurd (cc (In-mode_name harmless_names All-harmless [] l))
In-nonempty (c ∷ cs) l e = absurd (ground arith)

-- A flag that is set once is never taken back.
read_names-keeps :
    (names : List Bytes) (mode : MySqlLexerMode)
    → read_names mode names ≡ ok supported
    → (mode ≡ supported) × All IsHarmless names
unfolding read_names
read_names-keeps [] mode h = (ground arith, tt)
read_names-keeps ([] ∷ ns) mode h = absurd (ground arith)
read_names-keeps ((c ∷ cs) ∷ ns) mode h =
    at_name (mode_name (c ∷ cs)) refl (λ m. read_names-keeps ns m)
  where
    at_name :
        (k : ModeName)
        → mode_name (c ∷ cs) ≡ k
        → ((m : MySqlLexerMode)
            → read_names m ns ≡ ok supported
            → (m ≡ supported) × All IsHarmless ns)
        → (mode ≡ supported) × All IsHarmless ((c ∷ cs) ∷ ns)
    at_name quotes e go = absurd (ground (arith, go (record mode { ansi_quotes = true })))
    at_name no_backslash e go =
        absurd (ground (arith, go (record mode { no_backslash_escapes = true })))
    at_name harmless e go =
        let (same, rest) = go mode (ground arith) in (same, (mode_name-In (c ∷ cs) e, rest))
    at_name syntax e go = absurd (ground arith)
    at_name unknown e go = absurd (ground arith)

read_names-harmless :
    (names : List Bytes) → All IsHarmless names → read_names supported names ≡ ok supported
unfolding read_names
read_names-harmless [] h = refl
read_names-harmless ([] ∷ ns) h = absurd (In-nonempty [] h.0 refl)
read_names-harmless ((c ∷ cs) ∷ ns) h =
    rw (In-mode_name harmless_names All-harmless (c ∷ cs) h.0, read_names)
      (read_names-harmless ns h.1)

read_trimmed-supported :
    (text : Bytes)
    → (read_trimmed text ≡ ok supported) ↔ ((text ≢ []) × All IsHarmless (names_of text))
unfolding read_trimmed
read_trimmed-supported [] = (λ h. absurd (ground arith), λ h. absurd (h.0 refl))
read_trimmed-supported (c ∷ cs) = (
  λ h. (λ e. absurd (ground arith), (read_names-keeps (names_of (c ∷ cs)) supported h).1),
  λ h. read_names-harmless (names_of (c ∷ cs)) h.1,
)

-- The session's text is accepted as the one supported mode exactly when it is empty, or lists
-- only names, in whatever case and with whatever space around them, of the fourteen that change
-- nothing in how SQL is read.
pub mode_from_session-supported :
    (raw : Bytes)
    → (mode_from_session raw ≡ ok supported)
      ↔ ((raw ≡ []) ⊎ ((trim_space raw ≢ []) × All IsHarmless (names_of (trim_space raw))))
unfolding mode_from_session
mode_from_session-supported [] = (λ h. inl refl, λ h. refl)
mode_from_session-supported (c ∷ cs) = (
  λ h. inr ((read_trimmed-supported (trim_space (c ∷ cs))).0 h),
  elim [
    | inl e ↦ absurd (ground arith)
    | inr h ↦ (read_trimmed-supported (trim_space (c ∷ cs))).1 h
  ],
)
