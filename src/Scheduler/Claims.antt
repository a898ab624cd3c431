-- ===== src/Scheduler/Claims.antt =====
-- The compare-and-swap of the enrollment table under any interleaving of store operations.
use ai_voice.Prelude.{
  ℕ, ◌+◌, ◌≤◌, Bool, false, ◌≡◌, refl, String, none, some, List, [], ◌∷◌, arith, string_eq,
  str_eq_iff, if◌then◌else◌, Option-cases, ◌⊎◌, inl, inr, ◌==◌,
}
use ai_voice.Prelude.Dict.{lookup, insert, lookup-insert}
use ai_voice.Scheduler.{
  EnrollmentState, CampaignEnrollment, Rows, is_pending, claim, claimed_row, complete, fail, settle,
  done, failed,
}

-- A call of the store by some tick of some replica.
pub data StoreCall : Type 0 where
  claim_call complete_call : (id : String) (expected : ℕ) → StoreCall
  fail_call : (id : String) (expected : ℕ) (reason : String) → StoreCall

abbrev pub perform : StoreCall → Rows → Rows
perform (claim_call id v) rows = (claim id v rows).1
perform (complete_call id v) rows = complete id v rows
perform (fail_call id v reason) rows = fail id v reason rows

-- 1 for a claim of this enrollment that succeeds.
abbrev pub wins : String → StoreCall → Rows → ℕ
wins id (claim_call j v) rows =
    if j == id then elim (claim j v rows).0 [ none ↦ 0 | some row ↦ 1 ] else 0
wins id _ rows = 0

abbrev pub successful_claims : String → List StoreCall → Rows → ℕ
successful_claims id [] rows = 0
successful_claims id (c ∷ cs) rows = wins id c rows + successful_claims id cs (perform c rows)

-- The table has a pending row for this enrollment.
abbrev pub waiting : String → Rows → Bool
waiting id rows = elim (lookup id rows) [ none ↦ false | some row ↦ is_pending row.state ]

waiting-insert :
    (j id : String) (row : CampaignEnrollment) (rows : Rows)
    → waiting id (insert j row rows) ≡ (if j == id then is_pending row.state else waiting id rows)
waiting-insert j id row rows = ground (arith, lookup-insert j id row rows)

settle-waiting :
    (state : EnrollmentState) (id j : String) (v : ℕ) (rows : Rows)
    → is_pending state ≡ false
    → waiting id rows ≡ false
    → waiting id (settle state j v rows) ≡ false
unfolding settle
settle-waiting state id j v rows final h = elim (Option-cases (lookup j rows)) [
  | inl absent ↦ ground (arith, absent)
  | inr (row, found) ↦ ground (
    arith,
    found,
    waiting-insert j id (record row { state = state; version = row.version + 1 }) rows,
  )
]

claim-waiting :
    (id j : String) (v : ℕ) (rows : Rows)
    → waiting id rows ≡ false
    → waiting id (claim j v rows).1 ≡ false
unfolding claim
claim-waiting id j v rows h = elim (Option-cases (lookup j rows)) [
  | inl absent ↦ ground (arith, absent)
  | inr (row, found) ↦ ground (arith, found, waiting-insert j id (claimed_row row) rows)
]

perform-waiting :
    (id : String) (c : StoreCall) (rows : Rows)
    → waiting id rows ≡ false
    → waiting id (perform c rows) ≡ false
unfolding complete fail
perform-waiting id (claim_call j v) rows h = claim-waiting id j v rows h
perform-waiting id (complete_call j v) rows h = settle-waiting done id j v rows refl h
perform-waiting id (fail_call j v reason) rows h = settle-waiting failed id j v rows refl h

no_wins : (id : String) (c : StoreCall) (rows : Rows) → waiting id rows ≡ false → wins id c rows ≡ 0
unfolding claim
no_wins id (claim_call j v) rows h = ground (arith, str_eq_iff j id)
no_wins id (complete_call j v) rows h = refl
no_wins id (fail_call j v reason) rows h = refl

no_claims :
    (id : String) (cs : List StoreCall) (rows : Rows)
    → waiting id rows ≡ false
    → successful_claims id cs rows ≡ 0
no_claims id [] rows h = refl
no_claims id (c ∷ cs) rows h =
    omega
      (arith, no_wins id c rows h, no_claims id cs (perform c rows) (perform-waiting id c rows h))

won-waiting :
    (id : String) (c : StoreCall) (rows : Rows)
    → (wins id c rows ≡ 0) ⊎ ((wins id c rows ≡ 1) × (waiting id (perform c rows) ≡ false))
unfolding claim
won-waiting id (claim_call j v) rows = elim (Option-cases (lookup j rows)) [
  | inl absent ↦ inl (ground (arith, absent))
  | inr (row, found) ↦ ground (arith, found, waiting-insert j id (claimed_row row) rows)
]
won-waiting id (complete_call j v) rows = inl refl
won-waiting id (fail_call j v reason) rows = inl refl

-- However the store calls of any number of ticks and replicas interleave, and whatever versions
-- they expect, an enrollment is claimed at most once.
pub successful_claims-le_one :
    (id : String) (cs : List StoreCall) (rows : Rows) → successful_claims id cs rows ≤ 1
successful_claims-le_one id [] rows = omega arith
successful_claims-le_one id (c ∷ cs) rows = elim (won-waiting id c rows) [
  | inl lost ↦ omega (arith, lost, successful_claims-le_one id cs (perform c rows))
  | inr (won, closed) ↦ omega (arith, won, no_claims id cs (perform c rows) closed)
]
