-- ===== src/Compliance/Chain.antt =====
-- saap/compliance/chain.py: the envelope, the interceptor contract and the ordered chain.
-- Every stage is a method over one state `S`, which holds what the stages' objects keep.
pub mod Onion
pub mod TwoPhase
use mathlib.Core.List.{reverse}
use ai_voice.Prelude.{Bool, String, Option, none, some, List, [], ◌∷◌, ◌++◌, map, string_eq}
use ai_voice.Prelude.Dict.{Dict, lookup, insert}
use ai_voice.Prelude.Exec.{Result, ok, err, Exec, pure, raise, continue, ◌>>=◌}
use ai_voice.Core.Types.{TenantContext, Message, ToolCall, Role, DataClass}

pub data Decision : Type 0 where
  allow deny require_human : Decision

-- The exceptions that leave a method: `ComplianceViolation(interceptor, reason)`,
-- `RuntimeRefused(refusal_text)`, and any other by its text.
pub data Failure : Type 0 where
  violation : (interceptor reason : String) → Failure
  refused : (refusal_text : String) → Failure
  error : String → Failure

-- The keys of `Envelope.metadata` that the code reads or writes, `none` where a key is absent,
-- and the other keys.
pub record Metadata : Type 0 where
  pub purpose : Option String
  pub tool_call_name : Option String
  pub tool_call : Option ToolCall
  pub policy_decision : Option Decision
  pub audit_row_id : Option String
  pub violated : Option String
  pub ran_interceptors : Option (List String)
  pub run_id : Option String
  pub other : Dict String String

abbrev pub no_metadata : Metadata
no_metadata = record {
  purpose = none;
  tool_call_name = none;
  tool_call = none;
  policy_decision = none;
  audit_row_id = none;
  violated = none;
  ran_interceptors = none;
  run_id = none;
  other = [];
}

pub record Envelope : Type 0 where
  pub tenant : TenantContext
  pub message : Message
  pub metadata : Metadata

-- `extra` writes the keyword arguments over the metadata.
unfoldable pub with_message : Envelope → Message → (Metadata → Metadata) → Envelope
with_message e message extra = record {
  tenant = e.tenant;
  message = message;
  metadata = extra e.metadata;
}

pub record Interceptor (S : Type 0) : Type 0 where
  pub name : String
  pub before : TenantContext → Envelope → Exec Failure S Envelope
  pub after : TenantContext → Envelope → Exec Failure S Envelope

abbrev pub InnerCall : Type 0 → Type 0
InnerCall S = TenantContext → Envelope → Exec Failure S Envelope

abbrev pub safe_refusal_text : String
safe_refusal_text = "I'm not able to help with that request."

-- The assistant message of a refusal; the violation's reason is not in it.
unfoldable pub refusal_message : String → Message
refusal_message interceptor = record {
  role = Role.assistant;
  content = safe_refusal_text;
  name = none;
  data_class = DataClass.personal;
  metadata = ("compliance_violation", interceptor) ∷ [];
}

unfoldable pub refuse : String → Envelope → Envelope
unfolding with_message
refuse interceptor e =
    with_message e (refusal_message interceptor) (λ m. record m { violated = some interceptor })

-- Where the `try` block of `wrap` or `run_before` stands when its loop ends.
pub record Progress (S : Type 0) : Type 0 where
  pub ran : List (Interceptor S)
  pub envelope : Envelope
  pub state : S
  pub stopped : Option Failure

module _ {S : Type 0} where
  -- `ComplianceChain.__init__`
  unfoldable pub new_chain : List (Interceptor S) → Result String (List (Interceptor S))
  new_chain [] = err "ComplianceChain requires at least one interceptor"
  new_chain (i ∷ is) = ok (i ∷ is)

  unfoldable pub interceptor_names : List (Interceptor S) → List String
  interceptor_names chain = map (λ i. i.name) chain

  -- The `before` loop. `envelope` and `ran` are only assigned after `before` returns.
  unfoldable pub before_loop :
      TenantContext → List (Interceptor S) → List (Interceptor S) → Envelope → S → Progress S
  before_loop t [] ran e s = record { ran = ran; envelope = e; state = s; stopped = none }
  before_loop t (i ∷ is) ran e s =
      let (r, s') = i.before t e s in
      elim r [
        | ok e' ↦ before_loop t is (ran ++ i ∷ []) e' s'
        | err f ↦ record { ran = ran; envelope = e; state = s'; stopped = some f }
      ]

  -- The `after` loop over the interceptors given, first to last.
  unfoldable pub after_loop :
      TenantContext → List (Interceptor S) → Envelope → Exec Failure S Envelope
  after_loop t [] e s = (ok e, s)
  after_loop t (i ∷ is) e s = continue (i.after t e s).0 (after_loop t is) (i.after t e s).1

  -- `except ComplianceViolation`: the refusal in place of the message; another exception goes on.
  unfoldable pub handle : Failure → Envelope → Exec Failure S Envelope
  unfolding refuse
  handle (violation interceptor reason) e = pure (refuse interceptor e)
  handle f e = raise f

  abbrev pub settle : Result Failure Envelope → Envelope → Exec Failure S Envelope
  settle (ok e') e = pure e'
  settle (err f) e = handle f e

  -- The end of the `try` block: `inner` runs only where every stage let the envelope through.
  unfoldable pub try_inner : TenantContext → InnerCall S → Progress S → Result Failure Envelope × S
  unfolding handle
  try_inner t inner p = elim p.stopped [
    | none ↦ let (r, s') = inner t p.envelope p.state in settle r p.envelope s'
    | some f ↦ handle f p.envelope p.state
  ]

  unfoldable pub wrap :
      List (Interceptor S) → TenantContext → Envelope → InnerCall S → Exec Failure S Envelope
  unfolding before_loop after_loop try_inner
  wrap chain t e inner s =
      let p = before_loop t chain [] e s in
      let (r, s') = try_inner t inner p in continue r (after_loop t (reverse p.ran)) s'

  -- What `run_before` adds to the metadata.
  unfoldable pub tag_ran : List (Interceptor S) → Envelope → Envelope
  unfolding with_message interceptor_names
  tag_ran ran e =
      with_message e e.message (λ m. record m { ran_interceptors = some (interceptor_names ran) })

  unfoldable pub run_before :
      List (Interceptor S) → TenantContext → Envelope → Exec Failure S Envelope
  unfolding before_loop handle tag_ran
  run_before chain t e s =
      let p = before_loop t chain [] e s in
      elim p.stopped [
        | none ↦ (ok (tag_ran p.ran p.envelope), p.state)
        | some f ↦ (handle f p.envelope >>= λ e'. pure (tag_ran p.ran e')) p.state
      ]

  -- {i.name: i for i in chain}
  unfoldable pub by_name :
      Dict String (Interceptor S) → List (Interceptor S) → Dict String (Interceptor S)
  by_name d [] = d
  by_name d (i ∷ is) = by_name (insert i.name i d) is

  -- The `after` loop of `run_after`, over names.
  unfoldable pub after_names :
      TenantContext → Dict String (Interceptor S) → List String → Envelope → Exec Failure S Envelope
  after_names t d [] e s = (ok e, s)
  after_names t d (n ∷ ns) e s = elim (lookup n d) [
    | none ↦ after_names t d ns e s
    | some i ↦ continue (i.after t e s).0 (after_names t d ns) (i.after t e s).1
  ]

  unfoldable pub run_after :
      List (Interceptor S) → TenantContext → Envelope → Exec Failure S Envelope
  unfolding by_name after_names
  run_after chain t e =
      let names : List String = elim e.metadata.ran_interceptors [ none ↦ [] | some ns ↦ ns ] in
      after_names t (by_name [] chain) (reverse names) e
