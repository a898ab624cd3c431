-- ===== src/LicenseGate.antt =====
-- tools/license_gate/gate.py: the license of a distribution, its verdict under a policy, the scan and
-- the exit code. The installed distributions, and the methods of `str` that need Unicode tables, are
-- parameters; so is the policy file, by what the YAML reader returns.
pub mod Exit
pub mod Report
pub mod Shadow
use ai_voice.Prelude.{
  ℕ, zero, suc, ◌+◌, Bool, true, false, not, ◌&&◌, ◌||◌, String, Option, none, some, List, [], ◌∷◌,
  keep, elem, length, ◌==◌, string_eq, if◌then◌else◌,
}
use ai_voice.Prelude.Dict.{Dict, lookup}
use ai_voice.Prelude.Text.{append, count, occurs, starts_with}
use ai_voice.Core.TokenPattern.{strip_prefix}

-- What a gate takes from Python's `str`: `lower`, `strip`, `repr` and `<`.
pub record Unicode : Type 0 where
  pub lower : String → String
  pub strip : String → String
  pub quoted : String → String
  pub before : String → String → Bool

pub data Verdict : Type 0 where
  allow review deny unknown : Verdict

pub record PackageVerdict : Type 0 where
  pub name : String
  pub version : String
  pub license : String
  pub verdict : Verdict
  pub reason : String

-- A policy; a key that is missing or null is an empty list.
pub record LicensePolicy : Type 0 where
  pub allow : List String
  pub review : List String
  pub deny : List String
  pub known_overrides : Dict String String

-- DEFAULT_POLICY
abbrev pub default_licenses : LicensePolicy
default_licenses = record {
  allow =
      "MIT" ∷ "Apache-2.0" ∷ "Apache 2.0" ∷ "Apache License 2.0" ∷ "Apache Software License"
      ∷ "Internet Systems Consortium" ∷ "BSD" ∷ "MPL-2.0" ∷ "Mozilla Public License 2.0 (MPL 2.0)"
      ∷ "PostgreSQL" ∷ "AGPL-3.0" ∷ "GNU Affero General Public License v3" ∷ "ISC" ∷ "PSF"
      ∷ "Python Software Foundation" ∷ "The Unlicense (Unlicense)" ∷ [];
  review = "LGPL" ∷ "GNU Lesser General Public License" ∷ "SUL-1.0" ∷ [];
  deny =
      "BUSL-1.1" ∷ "Business Source License" ∷ "RSALv2" ∷ "Server Side Public License" ∷ "SSPL"
      ∷ "Commons Clause" ∷ "Proprietary" ∷ "GPL-2.0" ∷ "GPL-3.0" ∷ "GNU General Public License"
      ∷ [];
  known_overrides =
      (
        "setuptools",
        "PSF/MIT-equivalent; PyPI metadata omits the classifier for this bootstrap package",
      )
      ∷ [];
}

-- A policy file: the keys that it has.
pub record LoadedPolicy : Type 0 where
  pub allow : Option (List String)
  pub review : Option (List String)
  pub deny : Option (List String)
  pub known_overrides : Option (Dict String String)

abbrev pub or_default {ℓ} : {A : Type ℓ} → A → Option A → A
or_default d none = d
or_default d (some a) = a

-- `load_policy`, where `none` says that there is no file
unfoldable pub load_policy : Option LoadedPolicy → LicensePolicy
load_policy none = default_licenses
load_policy (some loaded) = record {
  allow = or_default default_licenses.allow loaded.allow;
  review = or_default default_licenses.review loaded.review;
  deny = or_default default_licenses.deny loaded.deny;
  known_overrides = or_default default_licenses.known_overrides loaded.known_overrides;
}

-- The metadata of an installed distribution.
pub record Distribution : Type 0 where
  pub meta_name : Option String
  pub summary : Option String
  pub version : Option String
  pub license_expression : Option String
  pub license : Option String
  pub classifiers : List String

-- a or b, of texts that may be missing
unfoldable pub or_text : Option String → String → String
or_text none b = b
or_text (some a) b = if a == "" then b else a

unfoldable pub name_of : Distribution → String
name_of dist = or_text dist.meta_name (or_text dist.summary "unknown")

-- s.split("::")[-1]; each round takes a character
unfoldable pub last_part : ℕ → String → String → String
last_part zero s best = best
last_part (suc fuel) s best = elim (strip_prefix "::" s) [
  | some behind ↦ last_part fuel behind behind
  | none ↦ elim s [ String.[] ↦ best | String.◌∷◌ c rest ↦ last_part fuel rest best ]
]

module _ (u : Unicode) where
  unfoldable pub from_classifiers : List String → String
  from_classifiers [] = "UNKNOWN"
  from_classifiers (c ∷ cs) =
      if starts_with "License ::" c
      then u.strip (last_part (suc (count c)) c c)
      else from_classifiers cs

  unfoldable pub extract_license : Distribution → String
  extract_license dist =
      let field = or_text dist.license_expression (or_text dist.license "") in
      if field == "" || (u.strip field == "" || u.strip field == "UNKNOWN")
      then from_classifiers dist.classifiers
      else u.strip field

  -- The first entry that occurs in the license, both in lower case.
  unfoldable pub first_match : List String → String → Option String
  first_match [] license = none
  first_match (entry ∷ entries) license =
      if occurs (u.lower entry) (u.lower license) then some entry else first_match entries license

  unfoldable pub listed : LicensePolicy → String → Verdict × String
  listed policy license = elim (first_match policy.deny license) [
    | some d ↦ (Verdict.deny, append "matches deny-list entry " (u.quoted d))
    | none ↦ elim (first_match policy.allow license) [
      | some a ↦ (Verdict.allow, append "matches allow-list entry " (u.quoted a))
      | none ↦ elim (first_match policy.review license) [
        | some r ↦ (Verdict.review, append "matches review-list entry " (u.quoted r))
        | none ↦ (Verdict.unknown, "license not recognized under any policy bucket")
      ]
    ]
  ]

  unfoldable pub classify : String → String → LicensePolicy → Verdict × String
  classify name license policy =
      let override = or_text (lookup name policy.known_overrides) "" in
      if not (override == "")
      then (Verdict.allow, append "known_override: " override)
      else if license == "UNKNOWN"
      then (Verdict.unknown, "no license metadata found")
      else listed policy license

  unfoldable pub package_verdict : LicensePolicy → Distribution → PackageVerdict
  package_verdict policy dist =
      let license = extract_license dist in
      let (verdict, reason) = classify (name_of dist) license policy in
      record {
        name = name_of dist;
        version = or_text dist.version "0";
        license = license;
        verdict = verdict;
        reason = reason;
      }

  -- The loop over the distributions, with the names that were seen.
  unfoldable pub scan_loop : LicensePolicy → List String → List Distribution → List PackageVerdict
  scan_loop policy seen [] = []
  scan_loop policy seen (dist ∷ dists) =
      let again = elem (name_of dist) seen in
      let rest = scan_loop policy (if again then seen else name_of dist ∷ seen) dists in
      if again then rest else package_verdict policy dist ∷ rest

  -- `list.sort(key=lambda v: v.name.lower())`, which keeps the order of equal keys.
  unfoldable pub place_verdict : PackageVerdict → List PackageVerdict → List PackageVerdict
  place_verdict v [] = v ∷ []
  place_verdict v (w ∷ ws) =
      let rest = place_verdict v ws in
      if u.before (u.lower w.name) (u.lower v.name) then w ∷ rest else v ∷ w ∷ ws

  unfoldable pub sort_verdicts : List PackageVerdict → List PackageVerdict
  sort_verdicts [] = []
  sort_verdicts (v ∷ vs) = place_verdict v (sort_verdicts vs)

  unfoldable pub scan_environment : LicensePolicy → List Distribution → List PackageVerdict
  scan_environment policy dists = sort_verdicts (scan_loop policy [] dists)

abbrev pub is_denied : PackageVerdict → Bool
is_denied v = elim v.verdict [ Verdict.deny ↦ true | _ ↦ false ]

abbrev pub is_review : PackageVerdict → Bool
is_review v = elim v.verdict [ Verdict.review ↦ true | _ ↦ false ]

abbrev pub is_unknown : PackageVerdict → Bool
is_unknown v = elim v.verdict [ Verdict.unknown ↦ true | _ ↦ false ]

-- `GateReport.denied`, `review` and `unknown`
unfoldable pub denied : List PackageVerdict → List PackageVerdict
denied verdicts = keep is_denied verdicts

unfoldable pub under_review : List PackageVerdict → List PackageVerdict
under_review verdicts = keep is_review verdicts

unfoldable pub unclassified : List PackageVerdict → List PackageVerdict
unclassified verdicts = keep is_unknown verdicts

abbrev pub is_empty {ℓ} : {A : Type ℓ} → List A → Bool
is_empty [] = true
is_empty (x ∷ xs) = false

-- `GateReport.passed`
unfoldable pub gate_passed : List PackageVerdict → Bool
gate_passed verdicts = is_empty (denied verdicts)

-- The exit code of `main`.
unfoldable pub exit_code : Bool → List PackageVerdict → ℕ
exit_code strict verdicts =
    if not (is_empty (denied verdicts))
    then 1
    else if strict && not (is_empty (unclassified verdicts))
    then 1
    else 0

unfoldable pub gate : Unicode → Bool → Option LoadedPolicy → List Distribution → ℕ
gate u strict loaded dists = exit_code strict (scan_environment u (load_policy loaded) dists)
