-- ===== src/Sql/Executor.antt =====
-- mcp-servers/sql-readonly/executor.py: at most as many rows as the limit of what the database returns.
-- What `fetchmany` does with a negative limit is the driver's, so a limit is a natural number here.
use ai_voice.Prelude.{ℕ, zero, suc, ◌≤◌, String, List, [], ◌∷◌, length, take, arith}

-- `fetchmany(row_limit)` of the rows of a statement; the database is a parameter.
unfoldable pub execute :
    {Row Params : Type 0} → (String → Params → List Row) → String → Params → ℕ → List Row
execute run sql params row_limit = take row_limit (run sql params)

length-take-le : {A : Type 0} (n : ℕ) (xs : List A) → length (take n xs) ≤ n
length-take-le zero xs = omega arith
length-take-le (suc n) [] = omega arith
length-take-le (suc n) (x ∷ xs) = omega (arith, length-take-le n xs)

-- No statement returns more rows than the limit.
pub length-execute-le :
    {Row Params : Type 0} (run : String → Params → List Row) (sql : String) (params : Params)
    (row_limit : ℕ)
    → length (execute run sql params row_limit) ≤ row_limit
unfolding execute
length-execute-le run sql params row_limit = length-take-le row_limit (run sql params)
