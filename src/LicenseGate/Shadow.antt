-- ===== src/LicenseGate/Shadow.antt =====
-- `_classify` of tools/license_gate/gate.py: the lists are read in the order deny, allow, review.
use ai_voice.Prelude.{
  ◌≡◌, refl, ◌≢◌, true, String, Option, none, some, List, [], ◌∷◌, elem, ◌==◌, arith, string_eq,
  inl, inr, Bool-cases,
}
use ai_voice.Prelude.Dict.{lookup}
use ai_voice.Prelude.Text.{occurs, occurs_trans}
use ai_voice.LicenseGate.{Unicode, Verdict, LicensePolicy, or_text, first_match, listed, classify}

module _ (u : Unicode) where
  first_match_some :
      (entries : List String) (entry license : String)
      → elem entry entries ≡ true
      → occurs (u.lower entry) (u.lower license) ≡ true
      → first_match u entries license ≢ none
  unfolding first_match
  first_match_some [] entry license h k = absurd (ground arith)
  first_match_some (e ∷ es) entry license h k =
      ground (arith, first_match_some es entry license, string_eq.beq_iff entry e)

  listed-deny :
      (policy : LicensePolicy) (license : String)
      → first_match u policy.deny license ≢ none
      → (listed u policy license).0 ≡ Verdict.deny
  unfolding listed
  listed-deny policy license h = go (first_match u policy.deny license) refl
    where
      go :
          (o : Option String)
          → first_match u policy.deny license ≡ o
          → (listed u policy license).0 ≡ Verdict.deny
      go none e = absurd (h e)
      go (some d) e = rw (e, listed) refl

  -- A package with no override whose license names an entry of any list is denied where an entry of
  -- the deny list occurs in that entry, as "GPL-3.0" does in "AGPL-3.0" and "LGPL-3.0".
  pub classify-shadowed :
      (policy : LicensePolicy) (name license entry d : String)
      → or_text (lookup name policy.known_overrides) "" ≡ ""
      → license ≢ "UNKNOWN"
      → elem d policy.deny ≡ true
      → occurs (u.lower d) (u.lower entry) ≡ true
      → occurs (u.lower entry) (u.lower license) ≡ true
      → (classify u name license policy).0 ≡ Verdict.deny
  unfolding classify
  classify-shadowed policy name license entry d free known h k l =
      elim (Bool-cases (license == "UNKNOWN")) [
        | inl e ↦ absurd (known (ground (arith, string_eq.beq_iff license "UNKNOWN")))
        | inr e ↦ rw (free) (
            rw (e) (
              listed-deny policy license (
                first_match_some policy.deny d license h
                  (occurs_trans (u.lower d) (u.lower entry) (u.lower license) k l))))
      ]
