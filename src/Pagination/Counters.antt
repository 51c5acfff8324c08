-- ===== src/Pagination/Counters.antt =====
-- Go's maps from texts to numbers: a missing key reads as 0.
use web_db.Prelude.{
  ℕ, ◌+◌, ◌-◌, ◌≡◌, String, List, [], ◌∷◌, arith, str_eq, eq_iff, ltb, if◌then◌else◌,
}

abbrev pub Counters : Type 0
Counters = List (String × ℕ)

-- `m[k]`
unfoldable pub get : Counters → String → ℕ
get [] k = 0
get ((j, n) ∷ m) k = if str_eq j k then n else get m k

-- `delete(m, k)`
unfoldable pub remove : Counters → String → Counters
remove [] k = []
remove ((j, n) ∷ m) k = let rest = remove m k in if str_eq j k then rest else (j, n) ∷ rest

-- `m[k] = n`
unfoldable pub put : Counters → String → ℕ → Counters
unfolding remove
put m k n = (k, n) ∷ remove m k

-- `m[k] += n`
unfoldable pub increase : Counters → String → ℕ → Counters
increase m k n = put m k (get m k + n)

-- `if v := m[k]; v > n { m[k] = v - n } else { delete(m, k) }`
unfoldable pub decrease : Counters → String → ℕ → Counters
decrease m k n = if ltb n (get m k) then put m k (get m k - n) else remove m k

get-remove :
    (m : Counters) (k j : String) → get (remove m k) j ≡ (if str_eq k j then 0 else get m j)
unfolding get remove
get-remove [] k j = ground arith
get-remove ((i, n) ∷ m) k j = ground (arith, get-remove m k j, eq_iff i k, eq_iff i j, eq_iff k j)

pub get-put :
    (m : Counters) (k j : String) (n : ℕ) → get (put m k n) j ≡ (if str_eq k j then n else get m j)
unfolding get put
get-put m k j n = ground (arith, get-remove m k j)

pub get-increase :
    (m : Counters) (k j : String) (n : ℕ)
    → get (increase m k n) j ≡ (if str_eq k j then get m k + n else get m j)
unfolding increase
get-increase m k j n = get-put m k j _

-- Truncated subtraction is what `decrease` amounts to.
pub get-decrease :
    (m : Counters) (k j : String) (n : ℕ)
    → get (decrease m k n) j ≡ (if str_eq k j then get m k - n else get m j)
unfolding decrease
get-decrease m k j n = ground (arith, get-remove m k j, get-put m k j (get m k - n))
