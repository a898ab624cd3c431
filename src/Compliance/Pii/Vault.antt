-- ===== src/Compliance/Pii/Vault.antt =====
-- What the vault resolves, what crypto-shredding leaves, and masked texts read back.
use ai_voice.Prelude.{
  ◌≡◌, ◌≢◌, refl, ap, ◌∙◌, String, some, none, List, [], ◌∷◌, All, arith, string_eq,
}
use ai_voice.Prelude.Dict.{lookup, lookup-insert_self, lookup-insert_ne}
use ai_voice.Prelude.Exec.{ok}
use ai_voice.Compliance.Platform.{Platform, IsReversible}
use ai_voice.Compliance.Pii.{TokenVault, token_text, tokenize, resolve, destroy_all}
use ai_voice.Compliance.Pii.Masking.{Segment, render}

-- After `destroy_all` no token resolves, whenever it was issued.
pub resolve-destroy_all :
    (p : Platform) (vault : TokenVault) (token : String)
    → resolve p (destroy_all vault) token ≡ ok none
unfolding resolve destroy_all lookup
resolve-destroy_all p vault token = refl

module _ (p : Platform) (cipher : IsReversible p) where
  -- A token resolves to the value that it was issued for.
  pub resolve-tokenize :
      (entity_type value : String) (vault : TokenVault)
      → (let (token, vault') = tokenize p entity_type value vault in
          resolve p vault' token ≡ ok (some value))
  unfolding resolve tokenize
  resolve-tokenize entity_type value vault = ground (
    arith,
    cipher.decrypt-encrypt vault.key (p.urandom vault.drawn) value,
    lookup-insert_self (token_text entity_type (p.token_hex vault.drawn))
        (p.urandom vault.drawn, p.encrypt vault.key (p.urandom vault.drawn) value) vault.store,
  )

  -- Issuing another token leaves it resolvable.
  resolve-tokenize_ne :
      (entity_type value : String) (vault : TokenVault) (token : String)
      → (tokenize p entity_type value vault).0 ≢ token
      → resolve p (tokenize p entity_type value vault).1 token ≡ resolve p vault token
  unfolding resolve tokenize
  resolve-tokenize_ne entity_type value vault token differ = ground (
    arith,
    lookup-insert_ne (token_text entity_type (p.token_hex vault.drawn)) token
        (p.urandom vault.drawn, p.encrypt vault.key (p.urandom vault.drawn) value) vault.store
        differ,
  )

  -- The tokens that `render` issues, first to last, each with its value.
  abbrev pub issued : List Segment → TokenVault → List (String × String)
  issued [] vault = []
  issued (g ∷ gs) vault =
      ((tokenize p g.entity_type g.value (render p gs "" vault).1).0, g.value) ∷ issued gs vault

  -- No two of the tokens are the same text.
  abbrev pub Distinct : List (String × String) → Type 0
  Distinct [] = Unit
  Distinct ((token, value) ∷ rest) = All (λ other. token ≢ other.0) rest × Distinct rest

  abbrev Resolves : TokenVault → String × String → Type 0
  Resolves vault pair = resolve p vault pair.0 ≡ ok (some pair.1)

  Resolves-tokenize :
      (entity_type value : String) (vault : TokenVault) (pairs : List (String × String))
      → All (λ other. (tokenize p entity_type value vault).0 ≢ other.0) pairs
      → All (Resolves vault) pairs
      → All (Resolves (tokenize p entity_type value vault).1) pairs
  Resolves-tokenize entity_type value vault [] h k = tt
  Resolves-tokenize entity_type value vault (pair ∷ pairs) h k = (
    resolve-tokenize_ne entity_type value vault pair.0 h.0 ∙ k.0,
    Resolves-tokenize entity_type value vault pairs h.1 k.1,
  )

  render_vault :
      (gs : List Segment) (tail : String) (vault : TokenVault)
      → (render p gs tail vault).1 ≡ (render p gs "" vault).1
  render_vault [] tail vault = refl
  render_vault (g ∷ gs) tail vault =
      ap (λ v. (tokenize p g.entity_type g.value v).1) (render_vault gs tail vault)

  -- Where no token is issued twice, every token in a masked text resolves to the value that it
  -- stands for.
  pub resolve-render :
      (gs : List Segment) (vault : TokenVault)
      → Distinct (issued gs vault)
      → All (λ pair. resolve p (render p gs "" vault).1 pair.0 ≡ ok (some pair.1)) (issued gs vault)
  resolve-render [] vault h = tt
  resolve-render (g ∷ gs) vault (new, rest) = (
    resolve-tokenize g.entity_type g.value (render p gs "" vault).1,
    Resolves-tokenize g.entity_type g.value (render p gs "" vault).1 (issued gs vault) new
        (resolve-render gs vault rest),
  )
