-- ===== src/Sql.antt =====
-- mcp-servers/sql-readonly/guard.py and server.py. What sqlparse makes of a text, the executor and
-- its world `W` are parameters; the server's own limit is a natural number.
pub mod Executor
pub mod Guard
use Prim.Native.Nat.{min}
use ai_voice.Prelude.{
  ℕ, Bool, true, false, ◌&&◌, String, Option, none, some, List, [], ◌∷◌, keep, elem, ◌==◌, length,
  string_eq, if◌then◌else◌,
}
use ai_voice.Prelude.Text.{append}
use ai_voice.Prelude.Exec.{Result, ok, err, Exec}

-- The token types that the guard names.
pub data TokenType : Type 0 where
  keyword ddl dml cte other : TokenType

-- A token: its type, and its value in upper case.
pub record Token : Type 0 where
  pub ttype : TokenType
  pub value : String

-- A statement: `token_first(skip_cm=True)` and `flatten()`.
pub record Statement : Type 0 where
  pub token_first : Option Token
  pub flatten : List Token

abbrev pub disallowed_keywords : List String
disallowed_keywords =
    "INSERT" ∷ "UPDATE" ∷ "DELETE" ∷ "DROP" ∷ "ALTER" ∷ "CREATE" ∷ "TRUNCATE" ∷ "GRANT" ∷ "REVOKE"
    ∷ []

abbrev pub is_allowed_first : Token → Bool
is_allowed_first t = elim t.ttype [
  | TokenType.dml ↦ t.value == "SELECT"
  | TokenType.cte ↦ t.value == "WITH"
  | _ ↦ false
]

abbrev pub is_disallowed : Token → Bool
is_disallowed t = elim t.ttype [
  | TokenType.keyword ↦ elem t.value disallowed_keywords
  | TokenType.ddl ↦ elem t.value disallowed_keywords
  | TokenType.dml ↦ elem t.value disallowed_keywords
  | _ ↦ false
]

abbrev pub has_first : Statement → Bool
has_first s = elim s.token_first [ none ↦ false | some t ↦ true ]

-- `UnsafeQuery` is its text.
unfoldable pub scan_tokens : List Token → Result String (Unit {0})
scan_tokens [] = ok tt
scan_tokens (t ∷ ts) =
    let rest = scan_tokens ts in
    if is_disallowed t then err (append "disallowed keyword detected: " t.value) else rest

abbrev pub not_select : Result String (Unit {0})
not_select = err "only SELECT (or WITH ... SELECT) statements are allowed"

unfoldable pub validate_statement : Statement → Result String (Unit {0})
validate_statement s = elim s.token_first [
  | none ↦ not_select
  | some t ↦ if is_allowed_first t then scan_tokens s.flatten else not_select
]

unfoldable pub validate_statements : List Statement → Result String (Unit {0})
validate_statements (s ∷ []) = validate_statement s
validate_statements _ = err "exactly one SQL statement is allowed per call (no stacked queries)"

-- A limit that the caller gives, which may be negative: `negsuc n` is -(n + 1).
pub data ℤ : Type 0 where
  pos : (n : ℕ) → ℤ
  negsuc : (n : ℕ) → ℤ

-- min(row_limit, max_row_limit)
unfoldable pub capped : ℤ → ℕ → ℤ
capped (pos n) max_row_limit = pos (min n max_row_limit)
capped (negsuc n) max_row_limit = negsuc n

module _ (parse : String → List Statement) where
  unfoldable pub validate_select_only : String → Result String (Unit {0})
  validate_select_only sql = validate_statements (keep has_first (parse sql))

  module _ {W Params Row E : Type 0} (execute : String → Params → ℤ → Exec E W (List Row))
      (max_row_limit : ℕ) where
    pub data QueryReply : Type 0 where
      rows_reply : (rows : List Row) → (row_count : ℕ) → QueryReply
      error_reply : (text : String) → QueryReply

    unfoldable pub query : String → Params → ℤ → Exec E W QueryReply
    query sql params row_limit w = elim (validate_select_only sql) [
      | err text ↦ (ok (error_reply text), w)
      | ok _ ↦
          (let (r, w') = execute sql params (capped row_limit max_row_limit) w in
            elim r [ err e ↦ (err e, w') | ok rows ↦ (ok (rows_reply rows (length rows)), w') ])
    ]
