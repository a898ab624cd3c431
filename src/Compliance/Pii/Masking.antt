-- ===== src/Compliance/Pii/Masking.antt =====
-- What `_mask` does with the entities of a text.
use mathlib.Core.List.{reverse, reverse-append}
use ai_voice.Prelude.{
  ℕ, suc, ◌+◌, ◌≤◌, ◌<◌, All, ◌≡◌, refl, sym, ◌∙◌, ap, String, string_eq, List, [], ◌∷◌, ◌++◌,
  arith,
}
use ai_voice.Prelude.Text.{
  append, count, text_take, text_drop, append_assoc, count-append, text_take-append,
  text_drop-append, text_drop-append_le, text_drop-append_add,
}
use ai_voice.Compliance.Platform.{Platform}
use ai_voice.Prelude.Dict.{insert}
use ai_voice.Compliance.Pii.Order.{Reordered, Ascending, sort_desc-reverse}
use ai_voice.Compliance.Pii.{
  DetectedEntity, TokenVault, tokenize, token_text, sort_desc, mask_loop, mask,
}

-- A stretch of plain text and the entity behind it.
pub record Segment : Type 0 where
  pub gap : String
  pub entity_type : String
  pub value : String

-- The text that segments and a tail make up.
abbrev pub text_of : List Segment → String → String
text_of [] tail = tail
text_of (g ∷ gs) tail = append g.gap (append g.value (text_of gs tail))

-- Their entities, the first segment starting at an offset.
abbrev pub entities_of : ℕ → List Segment → List DetectedEntity
entities_of off [] = []
entities_of off (g ∷ gs) =
    record {
      entity_type = g.entity_type;
      start = off + count g.gap;
      end = off + count g.gap + count g.value;
      matched = g.value;
    }
    ∷ entities_of (off + count g.gap + count g.value) gs

entities_of_from :
    (gs : List Segment) (off low : ℕ) → low < off → All (λ e. low < e.start) (entities_of off gs)
entities_of_from [] off low h = tt
entities_of_from (g ∷ gs) off low h = (
  omega (arith, h),
  entities_of_from gs (off + count g.gap + count g.value) low (omega (arith, h)),
)

entities_of-Ascending :
    (gs : List Segment) (off : ℕ) → All (λ g. 0 < count g.value) gs → Ascending (entities_of off gs)
entities_of-Ascending [] off h = tt
entities_of-Ascending (g ∷ gs) off (filled, h) = (
  entities_of_from gs (off + count g.gap + count g.value) (off + count g.gap)
      (omega (arith, filled)),
  entities_of-Ascending gs (off + count g.gap + count g.value) h,
)

module _ (p : Platform) where
  -- The text with a token in the place of each value, the last value tokenized first.
  abbrev pub render : List Segment → String → TokenVault → String × TokenVault
  render [] tail vault = (tail, vault)
  render (g ∷ gs) tail vault =
      let (rest, vault') = render gs tail vault in
      let (token, vault'') = tokenize p g.entity_type g.value vault' in
      (append g.gap (append token rest), vault'')

  abbrev mask_one : DetectedEntity → String × TokenVault → String × TokenVault
  mask_one e (masked, vault) =
      let (token, vault') = tokenize p e.entity_type e.matched vault in
      (append (text_take e.start masked) (append token (text_drop e.end masked)), vault')

  mask_loop-snoc :
      (es : List DetectedEntity) (e : DetectedEntity) (masked : String) (vault : TokenVault)
      → mask_loop p (es ++ e ∷ []) masked vault ≡ mask_one e (mask_loop p es masked vault)
  unfolding mask_loop
  mask_loop-snoc [] e masked vault = refl
  mask_loop-snoc (x ∷ es) e masked vault = mask_loop-snoc es e _ _

  mask_one_at :
      (before gap value entity_type rest : String) (vault : TokenVault)
      → mask_one
          (record {
            entity_type = entity_type;
            start = count before + count gap;
            end = count before + count gap + count value;
            matched = value;
          })
          (append (append before (append gap value)) rest, vault)
        ≡ (
          append before (append gap (append (tokenize p entity_type value vault).0 rest)),
          (tokenize p entity_type value vault).1,
        )
  mask_one_at before gap value entity_type rest vault =
      let token = (tokenize p entity_type value vault).0 in
      let left : text_take (count before + count gap)
            (append (append before (append gap value)) rest)
          ≡ append before gap =
        rw (sym (count-append before gap)) (
          ap (text_take (count (append before gap))) (simp append_assoc)
          ∙ text_take-append (append before gap) (append value rest)) in
      let right : text_drop (count before + count gap + count value)
            (append (append before (append gap value)) rest)
          ≡ rest =
        rw (sym (count-append before gap), sym (count-append (append before gap) value))
          (ap (text_drop (count (append (append before gap) value))) (simp append_assoc)
            ∙ text_drop-append (append (append before gap) value) rest) in
      ap (λ s. (s, (tokenize p entity_type value vault).1))
        ((λ i. append (left i) (append token (right i)))
          ∙ append_assoc before gap (append token rest))

  -- Behind any text, the loop replaces every value by its token and moves nothing else.
  mask_loop-render :
      (gs : List Segment) (off : ℕ) (before tail : String) (vault : TokenVault)
      → off ≡ count before
      → mask_loop p (reverse (entities_of off gs)) (append before (text_of gs tail)) vault
        ≡ (append before (render gs tail vault).0, (render gs tail vault).1)
  mask_loop-render [] off before tail vault h = unfold mask_loop in refl
  mask_loop-render (g ∷ gs) off before tail vault h =
      let before' = append before (append g.gap g.value) in
      let e : DetectedEntity = record {
        entity_type = g.entity_type;
        start = off + count g.gap;
        end = off + count g.gap + count g.value;
        matched = g.value;
      } in
      let rest = entities_of (off + count g.gap + count g.value) gs in
      let ih =
        mask_loop-render gs (off + count g.gap + count g.value) before' tail vault
          (omega (arith, count-append before (append g.gap g.value), count-append g.gap g.value)) in
      let split : append before (text_of (g ∷ gs) tail) ≡ append before' (text_of gs tail) =
        simp append_assoc in
      rw (reverse-append (e ∷ []) rest) (
        mask_loop-snoc (reverse rest) e (append before (text_of (g ∷ gs) tail)) vault
        ∙ ap (λ s. mask_one e (mask_loop p (reverse rest) s vault)) split
        ∙ ap (mask_one e) ih
        ∙ rw h (
            mask_one_at before g.gap g.value g.entity_type (render gs tail vault).0
              (render gs tail vault).1))

  -- The text with a token of its own in the place of each value, the last value first: the token's
  -- text is made of the entity's type and the next draw, and the vault keeps the value encrypted
  -- under it with the next nonce.
  abbrev pub masked_text : List Segment → String → TokenVault → String × TokenVault
  masked_text [] tail vault = (tail, vault)
  masked_text (g ∷ gs) tail vault =
      let (rest, later) = masked_text gs tail vault in
      let hex = p.token_hex later.drawn in
      let token = append "<" (append g.entity_type (append "_" (append hex ">"))) in
      let nonce = p.urandom later.drawn in
      (
        append g.gap (append token rest),
        record {
          key = later.key;
          store = insert token (nonce, p.encrypt later.key nonce g.value) later.store;
          drawn = suc later.drawn;
        },
      )

  render-masked_text :
      (gs : List Segment) (tail : String) (vault : TokenVault)
      → render gs tail vault ≡ masked_text gs tail vault
  unfolding tokenize token_text
  render-masked_text [] tail vault = refl
  render-masked_text (g ∷ gs) tail vault = rw (render-masked_text gs tail vault) refl

  -- A text of segments whose values are not empty, where the analyzer reports exactly these values at
  -- their places, in whatever order, is masked by one token for each value, stored with the value
  -- encrypted under it, and the text between the values is kept.
  pub mask-masked_text :
      (analyze : String → List DetectedEntity) (gs : List Segment) (tail : String)
      (vault : TokenVault)
      → All (λ g. 0 < count g.value) gs
      → Reordered (analyze (text_of gs tail)) (entities_of 0 gs)
      → mask p analyze (text_of gs tail) vault ≡ masked_text gs tail vault
  unfolding mask count
  mask-masked_text analyze gs tail vault filled h =
      rw
        (sort_desc-reverse (analyze (text_of gs tail)) (entities_of 0 gs) h
          (entities_of-Ascending gs 0 filled))
        (mask_loop-render gs 0 "" tail vault refl ∙ render-masked_text gs tail vault)

-- An entity within another one, with text of the outer one in front of it and behind it. Where the
-- inner token is at least as long as the inner value and what follows it, all that follows it
-- within the outer entity stands unmasked at the end of the masked text.
pub mask_nested_leaks :
    (p : Platform) (analyze : String → List DetectedEntity) (a b c inner outer : String)
    (vault : TokenVault)
    → sort_desc (analyze (append a (append b c)))
      ≡ record { entity_type = inner; start = count a; end = count a + count b; matched = b }
        ∷ record {
          entity_type = outer;
          start = 0;
          end = count a + (count b + count c);
          matched = append a (append b c);
        }
        ∷ []
    → count b + count c ≤ count (tokenize p inner b vault).0
    → (mask p analyze (append a (append b c)) vault).0
      ≡ append
          (tokenize p outer (append a (append b c)) (tokenize p inner b vault).1).0
          (append (text_drop (count b + count c) (tokenize p inner b vault).0) c)
unfolding mask mask_loop
mask_nested_leaks p analyze a b c inner outer vault h k =
    let first = tokenize p inner b vault in
    let second = tokenize p outer (append a (append b c)) first.1 in
    let behind : text_drop (count a + count b) (append a (append b c)) ≡ c =
      rw (← count-append a b, ← append_assoc a b c) (text_drop-append (append a b) c) in
    rw (h, text_take-append, behind)
      (ap (append second.0) (
        text_drop-append_add (count b + count c) a (append first.0 c)
        ∙ text_drop-append_le (count b + count c) first.0 c k))
