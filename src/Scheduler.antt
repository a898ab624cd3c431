-- ===== src/Scheduler.antt =====
-- saap/scheduler/flow_scheduler.py: the enrollment table and the tick. An instant is a number.
-- `W` is the world that the consent registry reads and the dispatcher changes.
pub mod Claims
pub mod Ticks
use ai_voice.Prelude.{
  ℕ, ◌+◌, Bool, true, false, ◌&&◌, not, String, Option, none, some, List, [], ◌∷◌, string_eq, keep,
  leb, nat_beq, if◌then◌else◌,
}
use ai_voice.Prelude.Dict.{Dict, lookup, insert, values}

pub data EnrollmentState : Type 0 where
  pending in_progress done failed : EnrollmentState

pub record CampaignEnrollment : Type 0 where
  pub id : String
  pub tenant_id : String
  pub principal_id : String
  pub campaign : String
  pub state : EnrollmentState
  pub next_action_at : Option ℕ
  pub version : ℕ

-- `InMemoryEnrollmentStore._rows`
abbrev pub Rows : Type 0
Rows = Dict String CampaignEnrollment

-- {e.id: e for e in enrollments}
unfoldable pub new_rows : Rows → List CampaignEnrollment → Rows
new_rows rows [] = rows
new_rows rows (e ∷ es) = new_rows (insert e.id e rows) es

abbrev pub is_pending : EnrollmentState → Bool
is_pending pending = true
is_pending _ = false

abbrev pub is_due : ℕ → CampaignEnrollment → Bool
is_due now e = is_pending e.state && (elim e.next_action_at [ none ↦ false | some at ↦ leb at now ])

unfoldable pub due : ℕ → Rows → List CampaignEnrollment
due now rows = keep (is_due now) (values rows)

abbrev pub claimed_row : CampaignEnrollment → CampaignEnrollment
claimed_row row = record row { state = in_progress; version = row.version + 1 }

-- A row that is pending and has the version expected.
abbrev pub claimable : ℕ → CampaignEnrollment → Bool
claimable expected row = is_pending row.state && nat_beq row.version expected

unfoldable pub claim : String → ℕ → Rows → Option CampaignEnrollment × Rows
claim id expected rows = elim (lookup id rows) [
  | none ↦ (none, rows)
  | some row ↦
      if claimable expected row
      then (some (claimed_row row), insert id (claimed_row row) rows)
      else (none, rows)
]

-- `complete` and `fail`, which set a state where the version is the one expected.
unfoldable pub settle : EnrollmentState → String → ℕ → Rows → Rows
settle state id expected rows = elim (lookup id rows) [
  | none ↦ rows
  | some row ↦
      if nat_beq row.version expected
      then insert id (record row { state = state; version = row.version + 1 }) rows
      else rows
]

unfoldable pub complete : String → ℕ → Rows → Rows
unfolding settle
complete = settle done

-- The reason is not stored.
unfoldable pub fail : String → ℕ → String → Rows → Rows
unfolding settle
fail id expected reason = settle failed id expected

module _ {W : Type 0} (has_consent : (tenant_id principal_id purpose : String) → W → Bool)
    (dispatch : CampaignEnrollment → W → Option String × W) where
  -- A claimed enrollment: the consent check, the dispatch, and what is written of it. The
  -- dispatcher answers `some` text where it raises.
  unfoldable pub run_claimed : CampaignEnrollment → Rows × W → Rows × W
  run_claimed e (rows, w) =
      if has_consent e.tenant_id e.principal_id e.campaign w
      then (let (raised, w') = dispatch e w in
          elim raised [
            | none ↦ (complete e.id e.version rows, w')
            | some reason ↦ (fail e.id e.version reason rows, w')
          ])
      else (fail e.id e.version "consent_revoked" rows, w)

  unfoldable pub tick_one : CampaignEnrollment → Rows × W → Rows × W
  tick_one e (rows, w) =
      let (claimed, rows') = claim e.id e.version rows in
      elim claimed [ none ↦ (rows', w) | some c ↦ run_claimed c (rows', w) ]

  unfoldable pub tick_loop : List CampaignEnrollment → Rows × W → Rows × W
  tick_loop [] s = s
  tick_loop (e ∷ es) s = tick_loop es (tick_one e s)

  unfoldable pub tick : ℕ → Rows × W → Rows × W
  tick now (rows, w) = tick_loop (due now rows) (rows, w)
