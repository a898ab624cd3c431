-- ===== src/Pgvector/Names.antt =====
-- The quoted names of saap/plugins/memory/pgvector/__init__.py, as a reader of the statement sees them.
use Prim.Native.Char.{Char, code}
use Prim.Native.String.{[], ◌∷◌}
use text.Mathlib.TextEquality.{Char-path}
use mathlib.Core.Bool.{false≢true}
use ai_voice.Prelude.{
  nat_beq, ◌≡◌, ◌≢◌, refl, ap, sym, ◌∙◌, Bool, true, false, String, Option, none, some, arith, inl,
  inr, Bool-cases, if◌then◌else◌,
}
use ai_voice.Prelude.Text.{
  append, lacks, append_assoc, append-left_cancel, append-right_cancel, starts_with, count,
}
use ai_voice.Core.Types.{TenantContext}
use ai_voice.Pgvector.Quoting.{
  underscore, underscored, tenant_table_name, doubled, quote_ident, table_name,
}

-- An SQL identifier behind its opening quote: two quotes stand for one, and one quote ends it. The result
-- is the name and the text behind it.
abbrev pub inside : String → Option (String × String)
inside [] = none
inside (c ∷ []) = if nat_beq (code c) b'"' then some ([], []) else none
inside (c ∷ d ∷ s) =
    let paired = inside s in
    let plain = inside (d ∷ s) in
    if nat_beq (code c) b'"'
    then (if nat_beq (code d) b'"'
        then elim paired [ none ↦ none | some (a, b) ↦ some (c ∷ a, b) ]
        else some ([], d ∷ s))
    else elim plain [ none ↦ none | some (a, b) ↦ some (c ∷ a, b) ]

abbrev pub read_ident : String → Option (String × String)
read_ident [] = none
read_ident (c ∷ s) = if nat_beq (code c) b'"' then inside s else none

abbrev pub starts_quoted : String → Bool
starts_quoted [] = false
starts_quoted (c ∷ s) = nat_beq (code c) b'"'

inside-end : (rest : String) → starts_quoted rest ≡ false → inside ("\"" ∷ rest) ≡ some ([], rest)
inside-end [] h = refl
inside-end (c ∷ rest) h = rw (h) refl

inside-plain :
    (c : Char) (s a b : String)
    → nat_beq (code c) b'"' ≡ false
    → inside s ≡ some (a, b)
    → inside (c ∷ s) ≡ some (c ∷ a, b)
inside-plain c [] a b h k = absurd (ground arith)
inside-plain c (d ∷ s) a b h k = rw (h, k) refl

inside-doubled :
    (name rest : String)
    → starts_quoted rest ≡ false
    → inside (append (doubled name) ("\"" ∷ rest)) ≡ some (name, rest)
unfolding append doubled
inside-doubled [] rest h = inside-end rest h
inside-doubled (c ∷ name) rest h = elim (Bool-cases (nat_beq (code c) b'"')) [
  | inl k ↦ rw (k) (rw (k, inside-doubled name rest h) refl)
  | inr k ↦ rw (k) (
      inside-plain c (append (doubled name) ("\"" ∷ rest)) name rest k (inside-doubled name rest h))
]

-- Whatever a name holds, quotes included, the quoted name in front of a text that does not start with a
-- quote is read back as that name and that text: no name ends its own quotes.
pub read_ident-quote_ident :
    (name rest : String)
    → starts_quoted rest ≡ false
    → read_ident (append (quote_ident name) rest) ≡ some (name, rest)
unfolding quote_ident append
read_ident-quote_ident name rest h =
    ap inside (append_assoc (doubled name) "\"" rest) ∙ inside-doubled name rest h

clash : (c : Char) → c ≡ "_" → nat_beq (code c) b'_' ≡ false → ⊥
clash c e h = false≢true (sym h ∙ ap (λ z. nat_beq (code z) b'_') e)

underscore-injective :
    (c d : Char)
    → nat_beq (code c) b'_' ≡ false
    → nat_beq (code d) b'_' ≡ false
    → underscore c ≡ underscore d
    → c ≡ d
unfolding underscore
underscore-injective c d h k e = elim (Bool-cases (nat_beq (code c) b'-')) [
  | inl p ↦ elim (Bool-cases (nat_beq (code d) b'-')) [
    | inl q ↦ Char-path c d (ground arith)
    | inr q ↦ absurd (clash d (sym (rw (p, q) at e)) k)
  ]
  | inr p ↦ elim (Bool-cases (nat_beq (code d) b'-')) [
    | inl q ↦ absurd (clash c (rw (p, q) at e) h)
    | inr q ↦ rw (p, q) at e
  ]
]

underscored-injective :
    (a b : String)
    → lacks b'_' a ≡ true
    → lacks b'_' b ≡ true
    → underscored a ≡ underscored b
    → a ≡ b
unfolding underscored lacks count
underscored-injective [] [] h k e = refl
underscored-injective [] (d ∷ b) h k e = absurd (omega (arith, ap count e))
underscored-injective (c ∷ a) [] h k e = absurd (omega (arith, ap count e))
underscored-injective (c ∷ a) (d ∷ b) h k e =
    ground (arith, underscore-injective c d, underscored-injective a b)

quote_ident-injective : (a b : String) → quote_ident a ≡ quote_ident b → a ≡ b
quote_ident-injective a b e =
    let same : some (a, "") ≡ some (b, "") =
      sym (read_ident-quote_ident a "" refl)
      ∙ ap (λ q. read_ident (append q "")) e
      ∙ read_ident-quote_ident b "" refl in
    ground (arith, same)

-- Where every tenant has a table of its own, two tenants never have the same quoted table, and none has the
-- shared one, for tenant ids that are written without an underscore, as UUIDs are.
pub quoted_tables_differ :
    (t u : TenantContext)
    → lacks b'_' t.tenant_id ≡ true
    → lacks b'_' u.tenant_id ≡ true
    → t.tenant_id ≢ u.tenant_id
    → (quote_ident (table_name true t) ≢ quote_ident (table_name true u))
      × (quote_ident (table_name true t) ≢ quote_ident (table_name false t))
unfolding table_name tenant_table_name starts_with append
quoted_tables_differ t u h k differ = (
  λ e. differ (
      underscored-injective t.tenant_id u.tenant_id h k (
        append-right_cancel (underscored t.tenant_id) (underscored u.tenant_id) "_chunks" (
          append-left_cancel "tenant_" (append (underscored t.tenant_id) "_chunks")
            (append (underscored u.tenant_id) "_chunks") (quote_ident-injective _ _ e)))),
  λ e. false≢true (sym (ap (starts_with "tenant_") (quote_ident-injective _ _ e))),
)
