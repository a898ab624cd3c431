-- ===== src/Tests/Queries.antt =====
-- A query of the read-only SQL server.
use ai_voice.Prelude.{ℕ, ◌≡◌, refl, String, some, List, [], ◌∷◌}
use ai_voice.Prelude.Exec.{ok, Exec}
use ai_voice.Sql.{TokenType, Statement, ℤ, pos, query}
use ai_voice.Sql.Guard.{query_keeps}

-- Every text is SELECT and a name; the world counts the rows that were written.
abbrev one_select : String → List Statement
one_select sql =
    record {
      token_first = some (record { ttype = TokenType.dml; value = "SELECT" });
      flatten =
          record { ttype = TokenType.dml; value = "SELECT" }
          ∷ record { ttype = TokenType.other; value = "NAME" }
          ∷ [];
    }
    ∷ []

abbrev run_select : String → String → ℤ → Exec String ℕ (List String)
run_select sql params limit w = (ok ("row" ∷ []), w)

query_keeps_example : (query one_select run_select 500 "select name" "" (pos 900) 0).1 ≡ 0
query_keeps_example =
    query_keeps one_select run_select 500 (λ w. w ≡ 0) (λ sql params limit w safe small h. h)
      "select name" "" (pos 900) 0 refl
