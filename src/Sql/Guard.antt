-- ===== src/Sql/Guard.antt =====
-- `query` of mcp-servers/sql-readonly/server.py: what reaches the executor.
use ai_voice.Prelude.{
  ℕ, ◌≤◌, true, false, ◌≡◌, refl, String, some, List, [], ◌∷◌, keep, All, arith, Bool-cases,
  Option-cases, inl, inr,
}
use ai_voice.Prelude.Exec.{ok, Exec, Result-cases}
use ai_voice.Sql.{
  Token, Statement, is_allowed_first, is_disallowed, has_first, scan_tokens, validate_statement,
  validate_statements, validate_select_only, query, ℤ, pos, negsuc, capped,
}

-- One statement, opened by SELECT or WITH, without a disallowed keyword.
pub record IsReadOnly (statements : List Statement) : Type 0 where
  pub statement : Statement
  pub first : Token
  pub single : keep has_first statements ≡ statement ∷ []
  pub opens : statement.token_first ≡ some first
  pub selects : is_allowed_first first ≡ true
  pub clean : All (λ t. is_disallowed t ≡ false) statement.flatten

scan_tokens-clean :
    (ts : List Token) → scan_tokens ts ≡ ok tt → All (λ t. is_disallowed t ≡ false) ts
unfolding scan_tokens
scan_tokens-clean [] h = tt
scan_tokens-clean (t ∷ ts) h = elim (Bool-cases (is_disallowed t)) [
  | inl bad ↦ absurd (ground (arith, bad))
  | inr good ↦ (good, scan_tokens-clean ts (ground (arith, good)))
]

IsReadOnly-kept :
    (all kept : List Statement)
    → keep has_first all ≡ kept
    → validate_statements kept ≡ ok tt
    → IsReadOnly all
unfolding validate_statements validate_statement
IsReadOnly-kept all [] e h = absurd (ground arith)
IsReadOnly-kept all (s ∷ t ∷ rest) e h = absurd (ground arith)
IsReadOnly-kept all (s ∷ []) e h = elim (Option-cases s.token_first) [
  | inl missing ↦ absurd (ground (arith, missing))
  | inr (t, found) ↦ elim (Bool-cases (is_allowed_first t)) [
    | inl fine ↦ record {
      statement = s;
      first = t;
      single = e;
      opens = found;
      selects = fine;
      clean = scan_tokens-clean s.flatten (ground (arith, found, fine));
    }
    | inr other ↦ absurd (ground (arith, found, other))
  ]
]

validate_select_only-IsReadOnly :
    (parse : String → List Statement) (sql : String)
    → validate_select_only parse sql ≡ ok tt
    → IsReadOnly (parse sql)
unfolding validate_select_only
validate_select_only-IsReadOnly parse sql h = IsReadOnly-kept (parse sql) _ refl h

-- The limit is not above the server's.
abbrev pub IsWithin : ℕ → ℤ → Type 0
IsWithin max_row_limit (pos n) = n ≤ max_row_limit
IsWithin max_row_limit (negsuc n) = Unit

capped-IsWithin :
    (row_limit : ℤ) (max_row_limit : ℕ) → IsWithin max_row_limit (capped row_limit max_row_limit)
unfolding capped
capped-IsWithin (pos n) max_row_limit = omega arith
capped-IsWithin (negsuc n) max_row_limit = tt

module _ (parse : String → List Statement) {W Params Row E : Type 0}
    (execute : String → Params → ℤ → Exec E W (List Row)) (max_row_limit : ℕ) where
  -- The executor is only given texts that are one read-only statement without a disallowed keyword,
  -- and a limit that is not above the server's: what such runs keep true of the database, a query
  -- keeps true, whatever its text and whatever limit the caller gives.
  pub query_keeps :
      (P : W → Type 0)
      (keeps : (sql : String) (params : Params) (limit : ℤ) (w : W)
        → IsReadOnly (parse sql)
        → IsWithin max_row_limit limit
        → P w
        → P (execute sql params limit w).1)
      (sql : String) (params : Params) (row_limit : ℤ) (w : W)
      → P w
      → P (query parse execute max_row_limit sql params row_limit w).1
  unfolding query
  query_keeps P keeps sql params row_limit w h =
      elim (Result-cases (validate_select_only parse sql)) [
        | inr (text, bad) ↦ rw (bad, query) h
        | inl (u, good) ↦
            let safe =
              keeps sql params (capped row_limit max_row_limit) w
                (validate_select_only-IsReadOnly parse sql good)
                (capped-IsWithin row_limit max_row_limit) h in
            elim (Result-cases (execute sql params (capped row_limit max_row_limit) w).0) [
              | inl (rows, e) ↦ rw (good, query) (rw (e) safe)
              | inr (f, e) ↦ rw (good, query) (rw (e) safe)
            ]
      ]
