-- ===== src/Prelude/Outcome.antt =====
-- What a Go function returns that may fail: an error, or a value.

pub data Result {ε α} (Err : Type ε) (Val : Type α) : Type (ε ⊔ α) where
  err : Err → Result Err Val
  ok : Val → Result Err Val

-- The next call runs on the value; the first error is the answer.
infixl 5 ◌>>=◌
abbrev pub ◌>>=◌ {ε α β} :
    {Err : Type ε} {Val : Type α} {Out : Type β}
    → Result Err Val
    → (Val → Result Err Out)
    → Result Err Out
err why >>= next = err why
ok v >>= next = next v

-- The same behind a guard, which has no value.
infixl 5 ◌>>◌
abbrev pub ◌>>◌ {ε β} :
    {Err : Type ε} {Out : Type β} → Result Err (Unit {0}) → Result Err Out → Result Err Out
err why >> later = err why
ok checked >> later = later
