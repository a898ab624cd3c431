-- ===== src/Scheduler/Ticks.antt =====
-- `FlowScheduler.tick` of saap/scheduler/flow_scheduler.py.
use ai_voice.Prelude.{
  ℕ, ◌+◌, Bool, true, ◌≡◌, ◌≢◌, String, Option, none, some, List, [], ◌∷◌, arith, string_eq,
  if◌then◌else◌, Bool-cases, Option-cases, inl, inr,
}
use ai_voice.Prelude.Dict.{lookup, insert, lookup-insert_ne, lookup-insert_self}
use ai_voice.Scheduler.{
  CampaignEnrollment, EnrollmentState, pending, done, failed, Rows, due, claim, claimed_row,
  complete, fail, settle, run_claimed, tick_one, tick_loop, tick,
}

module _ {W : Type 0} (has_consent : String → String → String → W → Bool)
    (dispatch : CampaignEnrollment → W → Option String × W) where
  module _ {P : W → Type 0}
      (keeps : (e : CampaignEnrollment) (w : W)
        → has_consent e.tenant_id e.principal_id e.campaign w ≡ true
        → P w
        → P (dispatch e w).1) where
    run_claimed_keeps :
        (e : CampaignEnrollment) (rows : Rows) (w : W)
        → P w
        → P (run_claimed has_consent dispatch e (rows, w)).1
    unfolding run_claimed
    run_claimed_keeps e rows w h =
        elim (Bool-cases (has_consent e.tenant_id e.principal_id e.campaign w)) [
          | inl granted ↦ rw granted (elim (Option-cases (dispatch e w).0) [
            | inl sent ↦ rw sent (keeps e w granted h)
            | inr (reason, raised) ↦ rw raised (keeps e w granted h)
          ])
          | inr revoked ↦ rw revoked h
        ]

    tick_one_keeps :
        (e : CampaignEnrollment) (rows : Rows) (w : W)
        → P w
        → P (tick_one has_consent dispatch e (rows, w)).1
    unfolding tick_one
    tick_one_keeps e rows w h = elim (Option-cases (claim e.id e.version rows).0) [
      | inl lost ↦ rw (lost, tick_one) h
      | inr (c, won) ↦ rw (won, tick_one) (run_claimed_keeps c (claim e.id e.version rows).1 w h)
    ]

    tick_loop_keeps :
        (es : List CampaignEnrollment) (rows : Rows) (w : W)
        → P w
        → P (tick_loop has_consent dispatch es (rows, w)).1
    unfolding tick_loop
    tick_loop_keeps [] rows w h = h
    tick_loop_keeps (e ∷ es) rows w h =
        let (rows', w') = tick_one has_consent dispatch e (rows, w) in
        tick_loop_keeps es rows' w' (tick_one_keeps e rows w h)

    -- The dispatcher is only called for an enrollment whose consent holds at that moment: what
    -- such calls keep true of the world, a whole tick keeps true, whatever the table holds.
    pub tick_keeps :
        (now : ℕ) (rows : Rows) (w : W) → P w → P (tick has_consent dispatch now (rows, w)).1
    unfolding tick
    tick_keeps now rows w h = tick_loop_keeps (due now rows) rows w h

  -- How a claimed enrollment ends.
  abbrev pub ending : CampaignEnrollment → W → EnrollmentState
  ending e w =
      if has_consent e.tenant_id e.principal_id e.campaign w
      then (elim (dispatch (claimed_row e) w).0 [ none ↦ done | some reason ↦ failed ])
      else failed

  -- A due row that is still as it was read ends in one of the final states, two versions on: done
  -- where consent holds and the dispatch went through, failed where consent is revoked or the
  -- dispatch raised. No other row changes.
  pub tick_one_settles :
      (e : CampaignEnrollment) (rows : Rows) (w : W) (other : String)
      → lookup e.id rows ≡ some e
      → e.state ≡ pending
      → e.id ≢ other
      → (lookup e.id (tick_one has_consent dispatch e (rows, w)).0
          ≡ some (record e { state = ending e w; version = e.version + 1 + 1 }))
        × (lookup other (tick_one has_consent dispatch e (rows, w)).0 ≡ lookup other rows)
  unfolding tick_one run_claimed claim complete fail settle
  tick_one_settles e rows w other h k differ =
      let claimed = claimed_row e in
      let final = record e { state = ending e w; version = e.version + 1 + 1 } in
      let rows' = insert e.id claimed rows in
      (
        ground (arith, lookup-insert_self e.id claimed rows, lookup-insert_self e.id final rows'),
        ground (
          arith,
          lookup-insert_self e.id claimed rows,
          lookup-insert_ne e.id other claimed rows differ,
          lookup-insert_ne e.id other final rows' differ,
        ),
      )
