-- ===== src/Rag/Grounding.antt =====
-- `verify_grounding` of saap/core/memory.py and `GroundedResponderLogic.respond` of
-- saap/langflow_components/logic/grounded_responder.py.
use ai_voice.Prelude.{
  Bool, true, false, ◌≡◌, refl, ap, subst, ◌∙◌, ◌↔◌, inl, inr, String, List, [], ◌∷◌, ◌++◌, arith,
  Bool-cases, if◌then◌else◌,
}
use ai_voice.Prelude.Exec.{ok, pure, parts, bind-ok, bind-Parts}
use ai_voice.Rag.{
  RagPorts, Reading, grounded_reply, fallback_reply, claim_prompt, is_supported, check_sentence,
  ungrounded, verify_grounding, respond,
}

module _ {E S V F : Type 0} (rag : RagPorts E S V F) (re : Reading) (context : String) where
  -- From one state to another the verifier was asked about each sentence in turn; every sentence
  -- cites and was found supported.
  pub data Grounded : List String → S → S → Type 0 where
    none_left : {s : S} → Grounded [] s s
    supported :
        {x : String} {xs : List String} {s t u : S} {completion : String}
        → re.has_marker x ≡ true
        → rag.generate (claim_prompt context x) s ≡ (ok completion, t)
        → is_supported re completion ≡ true
        → Grounded xs t u
        → Grounded (x ∷ xs) s u

  check_sentence_passed :
      (x : String) {s t : S}
      → check_sentence rag re context x s ≡ (ok [], t)
      → (completion : String) × (re.has_marker x ≡ true)
        × (rag.generate (claim_prompt context x) s ≡ (ok completion, t))
        × (is_supported re completion ≡ true)
  unfolding check_sentence
  check_sentence_passed x h = elim (Bool-cases (re.has_marker x)) [
    | inr plain ↦ absurd (ground (arith, rw (plain) at h))
    | inl cited ↦ elim (bind-Parts (rag.generate (claim_prompt context x)) _ (rw (cited) at h)) [
      | parts completion u asked k ↦ elim (Bool-cases (is_supported re completion)) [
        | inl good ↦ (completion, cited, asked ∙ ap (λ q. (ok completion, q.1)) k, good)
        | inr bad ↦ absurd (ground arith)
      ]
    ]
  ]

  check_sentence_of :
      (x : String) {s t : S} {completion : String}
      → re.has_marker x ≡ true
      → rag.generate (claim_prompt context x) s ≡ (ok completion, t)
      → is_supported re completion ≡ true
      → check_sentence rag re context x s ≡ (ok [], t)
  unfolding check_sentence
  check_sentence_of x cited asked good =
      rw (cited) (bind-ok (rag.generate (claim_prompt context x)) _ asked ∙ rw (good) refl)

  Grounded-cons :
      (x : String) {xs : List String} {s t u : S}
      → check_sentence rag re context x s ≡ (ok [], t)
      → Grounded xs t u
      → Grounded (x ∷ xs) s u
  Grounded-cons x first rest =
      let (completion, cited, asked, good) = check_sentence_passed x first in
      supported cited asked good rest

  nothing_found :
      (found more : List String) {v u : S}
      → (pure {E = E} (found ++ more) v) ≡ (ok [], u)
      → (found ≡ []) × (more ≡ []) × (v ≡ u)
  nothing_found [] [] h = (refl, refl, ap (λ q. q.1) h)
  nothing_found [] (y ∷ more) h = absurd (ground arith)
  nothing_found (y ∷ found) more h = absurd (ground arith)

  ungrounded-Grounded :
      (xs : List String) {s u : S} → ungrounded rag re context xs s ≡ (ok [], u) → Grounded xs s u
  unfolding ungrounded
  ungrounded-Grounded [] {s} h = subst (Grounded [] s) (ap (λ q. q.1) h) none_left
  ungrounded-Grounded (x ∷ xs) h = elim (bind-Parts (check_sentence rag re context x) _ h) [
    | parts found t first k ↦ elim (bind-Parts (ungrounded rag re context xs) _ k) [
      | parts more v rest e ↦
          let (no_found, no_more, same) = nothing_found found more e in
          Grounded-cons x (first ∙ ap (λ l. (ok l, t)) no_found)
            (ungrounded-Grounded xs (rest ∙ rw (no_more, same) refl))
    ]
  ]

  Grounded-ungrounded :
      {xs : List String} {s u : S} → Grounded xs s u → ungrounded rag re context xs s ≡ (ok [], u)
  unfolding ungrounded
  Grounded-ungrounded none_left = refl
  Grounded-ungrounded (supported {x = x} {xs = xs} cited asked good rest) =
      bind-ok (check_sentence rag re context x) _ (check_sentence_of x cited asked good)
      ∙ bind-ok (ungrounded rag re context xs) _ (Grounded-ungrounded rest)

module _ {E S : Type 0} (answer_text : String) where
  reply-nothing :
      (spans : List String) (p : Bool × List String) {v t u : S}
      → (pure {E = E} (elim spans as (λ x. Bool) [ [] ↦ true | _ ∷ _ ↦ false ], spans) v)
        ≡ (ok p, t)
      → (if p.0 then pure {E = E} (grounded_reply answer_text) else pure (fallback_reply p.1)) t
        ≡ (ok (grounded_reply answer_text), u)
      → (spans ≡ []) × (v ≡ u)
  reply-nothing [] (true, spans) e k = (refl, ap (λ q. q.1) e ∙ ap (λ q. q.1) k)
  reply-nothing [] (false, spans) e k = absurd (ground arith)
  reply-nothing (x ∷ xs) (true, spans) e k = absurd (ground arith)
  reply-nothing (x ∷ xs) (false, spans) e k = absurd (ground arith)

-- The reply is the answer, called grounded, exactly where every sentence of the answer cites and was
-- found supported by the verifier; where no sentence fails the check and no call raises.
pub respond-Grounded :
    {E S V F : Type 0} (rag : RagPorts E S V F) (re : Reading) (answer_text context : String)
    (s u : S)
    → (respond rag re answer_text context s ≡ (ok (grounded_reply answer_text), u))
      ↔ Grounded rag re context (re.sentences answer_text) s u
unfolding respond verify_grounding
respond-Grounded rag re answer_text context s u = (
  λ h. elim (bind-Parts (verify_grounding rag re answer_text context) _ h) [
    | parts p t first k ↦
        elim (bind-Parts (ungrounded rag re context (re.sentences answer_text)) _ first) [
          | parts spans v asked e ↦
              let (nothing, same) = reply-nothing answer_text spans p e k in
              ungrounded-Grounded rag re context (re.sentences answer_text)
                (asked ∙ rw (nothing, same) refl)
        ]
  ],
  λ g. bind-ok (verify_grounding rag re answer_text context) _ (
      bind-ok (ungrounded rag re context (re.sentences answer_text)) _
        (Grounded-ungrounded rag re context g)),
)
