-- ===== src/Compliance/Pii.antt =====
-- saap/compliance/pii.py: the analyzer, the token vault and the second stage. The regular
-- expressions are names, and `re.finditer` over them a parameter.
pub mod Presidio
pub mod Order
pub mod Masking
pub mod Vault
use ai_voice.Prelude.{
  ℕ, suc, Bool, true, false, String, Option, none, some, List, [], ◌∷◌, ◌++◌, map, string_eq, leb,
  ◌==◌, if◌then◌else◌,
}
use ai_voice.Prelude.Dict.{Dict, lookup, insert}
use ai_voice.Prelude.Text.{append, text_take, text_drop}
use ai_voice.Prelude.Exec.{Result, ok, err, Exec, Lens}
use ai_voice.Core.Types.{TenantContext, DataClass, Value}
use ai_voice.Core.TokenPattern.{findall, replace}
use ai_voice.Compliance.Chain.{Failure, error, Envelope, with_message, Interceptor}
use ai_voice.Compliance.Platform.{Platform}

pub data Pattern : Type 0 where
  aadhaar_re pan_re upi_vpa_re ifsc_re in_phone_re icd10_re : Pattern

abbrev pub recognizer_patterns : List (String × Pattern)
recognizer_patterns =
    ("IN_AADHAAR", Pattern.aadhaar_re)
    ∷ ("IN_PAN", Pattern.pan_re)
    ∷ ("IN_UPI_VPA", Pattern.upi_vpa_re)
    ∷ ("IN_IFSC", Pattern.ifsc_re)
    ∷ ("IN_PHONE", Pattern.in_phone_re)
    ∷ []

unfoldable pub vertical_patterns : Option String → List (String × Pattern)
vertical_patterns none = []
vertical_patterns (some vertical) =
    if vertical == "dental"
    then ("ICD10", Pattern.icd10_re) ∷ []
    else if vertical == "healthcare"
    then ("ICD10", Pattern.icd10_re) ∷ []
    else []

pub record DetectedEntity : Type 0 where
  pub entity_type : String
  pub start : ℕ
  pub end : ℕ
  pub matched : String

-- `m.start()`, `m.end()` and `m.group()` of each match
abbrev pub FindIter : Type 0
FindIter = Pattern → String → List (ℕ × ℕ × String)

analyze_with : FindIter → List (String × Pattern) → String → List DetectedEntity
analyze_with finditer [] s = []
analyze_with finditer ((entity, pattern) ∷ patterns) s =
    map
      (λ (start, end, group). record {
        entity_type = entity;
        start = start;
        end = end;
        matched = group;
      })
      (finditer pattern s)
    ++ analyze_with finditer patterns s

-- `SimplePIIAnalyzer(vertical).analyze`
unfoldable pub simple_analyze : FindIter → Option String → String → List DetectedEntity
unfolding analyze_with vertical_patterns
simple_analyze finditer vertical =
    analyze_with finditer (recognizer_patterns ++ vertical_patterns vertical)

-- `TokenVault`: the key, token -> (nonce, ciphertext), and how many draws it has made.
pub record TokenVault : Type 0 where
  pub key : String
  pub store : Dict String (String × String)
  pub drawn : ℕ

unfoldable pub token_text : String → String → String
unfolding append
token_text entity_type hex = append "<" (append entity_type (append "_" (append hex ">")))

module _ (p : Platform) where
  unfoldable pub tokenize : String → String → TokenVault → String × TokenVault
  tokenize entity_type value vault =
      let token = token_text entity_type (p.token_hex vault.drawn) in
      let nonce = p.urandom vault.drawn in
      (
        token,
        record vault {
          store = insert token (nonce, p.encrypt vault.key nonce value) vault.store;
          drawn = suc vault.drawn;
        },
      )

  -- A ciphertext that does not authenticate raises `InvalidTag`.
  unfoldable pub resolve : TokenVault → String → Result Failure (Option String)
  resolve vault token = elim (lookup token vault.store) [
    | none ↦ ok none
    | some (nonce, ciphertext) ↦ elim (p.decrypt vault.key nonce ciphertext) [
      | none ↦ err (error "InvalidTag")
      | some value ↦ ok (some value)
    ]
  ]

unfoldable pub destroy_all : TokenVault → TokenVault
destroy_all vault = record vault { store = [] }

-- `AlwaysMaskPersonal.should_mask`
unfoldable pub should_mask : TenantContext → DataClass → Bool
should_mask tenant DataClass.personal = true
should_mask tenant DataClass.sensitive_personal = true
should_mask tenant _ = false

unfoldable pub insert_desc : DetectedEntity → List DetectedEntity → List DetectedEntity
insert_desc x [] = x ∷ []
insert_desc x (y ∷ ys) =
    let rest = insert_desc x ys in if leb y.start x.start then x ∷ y ∷ ys else y ∷ rest

-- sorted(entities, key=lambda e: e.start, reverse=True), which is stable
unfoldable pub sort_desc : List DetectedEntity → List DetectedEntity
unfolding insert_desc
sort_desc [] = []
sort_desc (x ∷ xs) = insert_desc x (sort_desc xs)

module _ (p : Platform) where
  -- The loop of `_mask`.
  unfoldable pub mask_loop : List DetectedEntity → String → TokenVault → String × TokenVault
  unfolding tokenize text_take text_drop append
  mask_loop [] masked vault = (masked, vault)
  mask_loop (e ∷ es) masked vault =
      let (token, vault') = tokenize p e.entity_type e.matched vault in
      mask_loop es (append (text_take e.start masked) (append token (text_drop e.end masked)))
        vault'

  unfoldable pub mask : (String → List DetectedEntity) → String → TokenVault → String × TokenVault
  unfolding mask_loop sort_desc
  mask analyze content vault = mask_loop (sort_desc (analyze content)) content vault

  -- The loop of `resolve_for_tool` over the tokens found in one value.
  unfoldable pub resolve_tokens : TokenVault → List String → String → Result Failure String
  unfolding resolve replace
  resolve_tokens vault [] resolved = ok resolved
  resolve_tokens vault (token ∷ tokens) resolved = elim (resolve p vault token) [
    | err f ↦ err f
    | ok none ↦ resolve_tokens vault tokens resolved
    | ok (some real) ↦ resolve_tokens vault tokens (replace token real resolved)
  ]

  -- Only string leaves are scanned. The keys of a dict are distinct, so the result, built key by
  -- key, has the keys in their order.
  unfoldable pub resolve_for_tool :
      TokenVault → Dict String Value → Result Failure (Dict String Value)
  unfolding resolve_tokens findall
  resolve_for_tool vault [] = ok []
  resolve_for_tool vault ((key, Value.opaque v) ∷ rest) = elim (resolve_for_tool vault rest) [
    | err f ↦ err f
    | ok out ↦ ok ((key, Value.opaque v) ∷ out)
  ]
  resolve_for_tool vault ((key, Value.text v) ∷ rest) = elim (resolve_tokens vault (findall v) v) [
    | err f ↦ err f
    | ok value ↦ elim (resolve_for_tool vault rest) [
      | err f ↦ err f
      | ok out ↦ ok ((key, Value.text value) ∷ out)
    ]
  ]

  module _ {S : Type 0} (analyze : String → List DetectedEntity) (vault : Lens S TokenVault) where
    unfoldable pub pii_before : TenantContext → Envelope → Exec Failure S Envelope
    unfolding mask should_mask with_message
    pii_before tenant e s =
        let (masked, vault') = mask analyze e.message.content (vault.get s) in
        if should_mask tenant e.message.data_class
        then (
          ok (with_message e (record (e.message) { content = masked }) (λ m. m)),
          vault.put vault' s,
        )
        else (ok e, s)

    unfoldable pub pii_masking : Interceptor S
    unfolding pii_before
    pii_masking = record {
      name = "pii_masking";
      before = pii_before;
      after = λ tenant e s. (ok e, s);
    }
