-- ===== src/Tests/Pii.antt =====
-- Masking and the vault at concrete texts.
use ai_voice.Prelude.{◌≡◌, arith, refl, some, List, [], ◌∷◌, All, string_eq}
use ai_voice.Prelude.Text.{append, count, str_int}
use ai_voice.Prelude.Exec.{ok}
use ai_voice.Compliance.Pii.{DetectedEntity, tokenize, resolve, mask, token_text}
use ai_voice.Compliance.Pii.Masking.{Segment, text_of, render, masked_text, mask-masked_text}
use ai_voice.Compliance.Pii.Vault.{issued, resolve-render}
use ai_voice.Tests.Fixtures.{plain, plain_reversible, empty_vault}

abbrev segments : List Segment
segments =
    record { gap = "pan "; entity_type = "IN_PAN"; value = "ABCDE1234F" }
    ∷ record { gap = " ifsc "; entity_type = "IN_IFSC"; value = "HDFC0001234" }
    ∷ []

-- Their entities, reported the other way round.
abbrev segments_reversed : List DetectedEntity
segments_reversed =
    record { entity_type = "IN_IFSC"; start = 20; end = 31; matched = "HDFC0001234" }
    ∷ record { entity_type = "IN_PAN"; start = 4; end = 14; matched = "ABCDE1234F" }
    ∷ []

mask-masked_text_example :
    mask plain (λ s. segments_reversed) (text_of segments "!") empty_vault
    ≡ masked_text plain segments "!" empty_vault
mask-masked_text_example =
    mask-masked_text plain (λ s. segments_reversed) segments "!" empty_vault
      (unfold count in (omega arith, (omega arith, tt)))
      (unfold count in (_ ∷ [], [], refl, ([], [], refl, refl)))

resolve-render_example :
    All
      (λ pair. resolve plain (render plain segments "" empty_vault).1 pair.0 ≡ ok (some pair.1))
      (issued plain plain_reversible segments empty_vault)
resolve-render_example =
    resolve-render plain plain_reversible segments empty_vault
      (unfold tokenize token_text append str_int in (((λ h. cc), tt), (tt, tt)))
