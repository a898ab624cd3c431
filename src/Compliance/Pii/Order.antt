-- ===== src/Compliance/Pii/Order.antt =====
-- The order in which `_mask` of saap/compliance/pii.py takes the entities of a text.
use mathlib.Core.List.{reverse, reverse-append, append_assoc}
use ai_voice.Prelude.{
  ◌≡◌, refl, sym, ◌∙◌, subst, ◌<◌, List, [], ◌∷◌, ◌++◌, All, All-append, All-split, All-reverse,
  arith,
}
use ai_voice.Compliance.Pii.{DetectedEntity, insert_desc, sort_desc}

-- `xs` has the elements of `ys` in some order.
abbrev pub Reordered : List DetectedEntity → List DetectedEntity → Type 0
Reordered [] ys = ys ≡ []
Reordered (x ∷ xs) ys =
    (before : List DetectedEntity) × (after : List DetectedEntity) × (ys ≡ before ++ x ∷ after)
    × Reordered xs (before ++ after)

-- Each entity starts before all the later ones.
abbrev pub Ascending : List DetectedEntity → Type 0
Ascending [] = Unit
Ascending (e ∷ es) = All (λ f. e.start < f.start) es × Ascending es

-- What an ascending list is around one of its elements.
Ascending-middle :
    (before after : List DetectedEntity) (x : DetectedEntity)
    → Ascending (before ++ x ∷ after)
    → Ascending (before ++ after)
      × All (λ e. e.start < x.start) before
      × All (λ e. x.start < e.start) after
Ascending-middle [] after x (above, rest) = (rest, tt, above)
Ascending-middle (e ∷ before) after x (above, rest) =
    let (kept, below, over) = Ascending-middle before after x rest in
    let (near, (mid, far)) = All-split (λ f. e.start < f.start) before (x ∷ after) above in
    ((All-append (λ f. e.start < f.start) before after near far, kept), (mid, below), over)

insert_desc-append :
    (x : DetectedEntity) (high low : List DetectedEntity)
    → All (λ e. x.start < e.start) high
    → All (λ e. e.start < x.start) low
    → insert_desc x (high ++ low) ≡ high ++ x ∷ low
unfolding insert_desc
insert_desc-append x [] [] h k = refl
insert_desc-append x [] (e ∷ low) h k = ground (arith, k.0)
insert_desc-append x (e ∷ high) low h k = ground (arith, h.0, insert_desc-append x high low h.1 k)

-- The sort of an ascending list in any order is that list from its end.
pub sort_desc-reverse :
    (xs ys : List DetectedEntity) → Reordered xs ys → Ascending ys → sort_desc xs ≡ reverse ys
unfolding sort_desc
sort_desc-reverse [] ys h k = rw h refl
sort_desc-reverse (x ∷ xs) ys (before, after, e, h) k =
    let (kept, below, over) = Ascending-middle before after x (subst Ascending e k) in
    rw
      (
        e,
        sort_desc-reverse xs (before ++ after) h kept,
        reverse-append before after,
        reverse-append before (x ∷ after),
        reverse-append (x ∷ []) after,
      )
      (insert_desc-append x (reverse after) (reverse before)
          (All-reverse (λ e. x.start < e.start) after over)
          (All-reverse (λ e. e.start < x.start) before below)
        ∙ sym (append_assoc (reverse after) (x ∷ []) (reverse before)))
