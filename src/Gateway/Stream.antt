-- ===== src/Gateway/Stream.antt =====
-- The event stream of a run of saap/gateway/orchestrator.py.
use ai_voice.Prelude.{
  ℕ, zero, suc, ◌+◌, ◌-◌, ◌≤◌, ◌≡◌, refl, subst, Bool, true, false, ◌||◌, Option, none, some,
  String, List, [], ◌∷◌, ◌++◌, any, length, length-append, arith, Bool-cases, inl, inr,
}
use ai_voice.Core.Flow.{FlowRunEvent}
use ai_voice.Gateway.Runs.{
  Task, created, driving, closing, finished, RunState, start_run, drive_step, drive, cancel_task,
  cancel, take_queue, take_event, Action, drives, cancels, takes, act, act_all, repeat,
}

abbrev is_sentinel : Option FlowRunEvent → Bool
is_sentinel none = true
is_sentinel (some e) = false

-- The task has started and its `finally` is still to come.
abbrev pending : Task → Bool
pending (driving es raised) = true
pending closing = true
pending _ = false

-- The sentinel was taken, is in the queue, or is still to be put there.
abbrev closes : RunState → Bool
closes s = s.ended || (pending s.task || any is_sentinel s.queue)

any-append :
    {A : Type 0} (p : A → Bool) (xs ys : List A) → any p (xs ++ ys) ≡ (any p xs || any p ys)
any-append p [] ys = refl
any-append p (x ∷ xs) ys = ground (arith, any-append p xs ys)

closes-drive_step :
    (ended : Bool) (t : Task) (q : List (Option FlowRunEvent))
    → (ended || (pending t || any is_sentinel q)) ≡ true
    → (ended || (pending (drive_step t).1 || any is_sentinel (q ++ (drive_step t).0))) ≡ true
unfolding drive_step
closes-drive_step ended (created es raised) q h = ground arith
closes-drive_step ended (driving (e ∷ es) raised) q h = ground arith
closes-drive_step ended (driving [] none) q h = ground arith
closes-drive_step ended (driving [] (some text)) q h = ground arith
closes-drive_step ended closing q h = ground (arith, any-append is_sentinel q (none ∷ []))
closes-drive_step ended finished q h = ground (arith, any-append is_sentinel q [])

closes-cancel_task :
    (ended : Bool) (t : Task) (b : Bool)
    → (ended || (pending t || b)) ≡ true
    → (ended || (pending (cancel_task t) || b)) ≡ true
unfolding cancel_task
closes-cancel_task ended (created es raised) b h = h
closes-cancel_task ended (driving es raised) b h = ground arith
closes-cancel_task ended closing b h = h
closes-cancel_task ended finished b h = h

closes-take_queue :
    (q : List (Option FlowRunEvent)) (s : RunState)
    → s.queue ≡ q
    → closes s ≡ true
    → closes (take_queue q s) ≡ true
unfolding take_queue
closes-take_queue [] s e h = h
closes-take_queue (none ∷ q) s e h = refl
closes-take_queue (some x ∷ q) s e h = rw (e) at h

closes-act : (a : Action) (s : RunState) → closes s ≡ true → closes (act a s) ≡ true
unfolding act drive cancel take_event
closes-act drives s h = closes-drive_step s.ended s.task s.queue h
closes-act cancels s h = closes-cancel_task s.ended s.task (any is_sentinel s.queue) h
closes-act takes s h = elim (Bool-cases s.ended) [
  | inl e ↦ rw (e, take_event) h
  | inr e ↦ rw (e, take_event) (closes-take_queue s.queue s refl h)
]

closes-act_all :
    (actions : List Action) (s : RunState) → closes s ≡ true → closes (act_all actions s) ≡ true
unfolding act_all
closes-act_all [] s h = h
closes-act_all (a ∷ more) s h = closes-act_all more (act a s) (closes-act a s h)

closes-repeat : (n : ℕ) (a : Action) (s : RunState) → closes s ≡ true → closes (repeat n a s) ≡ true
unfolding repeat
closes-repeat zero a s h = h
closes-repeat (suc n) a s h = closes-repeat n a (act a s) (closes-act a s h)

-- How many steps a task takes at most.
unfoldable pub steps_left : Task → ℕ
steps_left (created es raised) = suc (suc (suc (length es)))
steps_left (driving es raised) = suc (suc (length es))
steps_left closing = 1
steps_left finished = 0

steps_left-drive_step : (t : Task) → steps_left (drive_step t).1 ≤ steps_left t - 1
unfolding steps_left drive_step
steps_left-drive_step (created es raised) = omega arith
steps_left-drive_step (driving (e ∷ es) raised) = omega arith
steps_left-drive_step (driving [] none) = omega arith
steps_left-drive_step (driving [] (some text)) = omega arith
steps_left-drive_step closing = omega arith
steps_left-drive_step finished = omega arith

length-drive_step : (t : Task) → length (drive_step t).0 ≤ 1
unfolding drive_step
length-drive_step (created es raised) = omega arith
length-drive_step (driving (e ∷ es) raised) = omega arith
length-drive_step (driving [] none) = omega arith
length-drive_step (driving [] (some text)) = omega arith
length-drive_step closing = omega arith
length-drive_step finished = omega arith

drives_finish :
    (n : ℕ) (s : RunState)
    → steps_left s.task ≤ n
    → (steps_left (repeat n drives s).task ≡ 0)
      × (length (repeat n drives s).queue ≤ length s.queue + n)
unfolding repeat act drive
drives_finish zero s h = (omega arith, omega arith)
drives_finish (suc n) s h =
    let rest = drives_finish n (drive s) (omega (arith, steps_left-drive_step s.task)) in
    (
      rest.0,
      omega (arith, rest.1, length-append s.queue (drive_step s.task).0, length-drive_step s.task),
    )

finished_not_pending : (t : Task) → steps_left t ≡ 0 → pending t ≡ false
unfolding steps_left
finished_not_pending (created es raised) h = absurd (omega arith)
finished_not_pending (driving es raised) h = absurd (omega arith)
finished_not_pending closing h = absurd (omega arith)
finished_not_pending finished h = refl

ended-repeat : (n : ℕ) (s : RunState) → s.ended ≡ true → (repeat n takes s).ended ≡ true
unfolding repeat act take_event
ended-repeat zero s h = h
ended-repeat (suc n) s h = ended-repeat n (take_event s) (rw (h, take_event) h)

takes_end :
    (n : ℕ) (q : List (Option FlowRunEvent)) (s : RunState)
    → s.queue ≡ q
    → any is_sentinel q ≡ true
    → length q ≤ n
    → (repeat n takes s).ended ≡ true
unfolding repeat act take_event take_queue
takes_end n [] s e h l = absurd (ground arith)
takes_end zero (x ∷ q) s e h l = absurd (omega arith)
takes_end (suc n) (none ∷ q) s e h l = elim (Bool-cases s.ended) [
  | inl over ↦ ended-repeat n (take_event s) (rw (over, take_event) over)
  | inr ongoing ↦ ended-repeat n (take_event s) (rw (ongoing, take_event) (rw (e, take_queue) refl))
]
takes_end (suc n) (some y ∷ q) s e h l = elim (Bool-cases s.ended) [
  | inl over ↦ ended-repeat n (take_event s) (rw (over, take_event) over)
  | inr ongoing ↦
      takes_end n q (take_event s) (rw (ongoing, take_event) (rw (e, take_queue) refl)) h
        (omega arith)
]

sentinel_left :
    (s : RunState)
    → closes s ≡ true
    → steps_left s.task ≡ 0
    → s.ended ≡ false
    → any is_sentinel s.queue ≡ true
sentinel_left s h k e = ground (arith, rw (e, finished_not_pending s.task k) at h)

-- Whatever a run that has started went through, cancellations and exceptions of the runtime
-- included: once its task has taken the steps that are left to it, and its client as many more as
-- the queue is then long at most, the client's stream has ended.
pub events_end :
    (events : List FlowRunEvent) (raised : Option String) (before : List Action) (s : RunState)
    (m n : ℕ)
    → act_all (drives ∷ before) (start_run events raised) ≡ s
    → steps_left s.task ≤ m
    → length s.queue + m ≤ n
    → (repeat n takes (repeat m drives s)).ended ≡ true
unfolding act_all act start_run drive drive_step
events_end events raised before s m n e h k =
    let driven = repeat m drives s in
    let started : closes s ≡ true =
      subst (λ t. closes t ≡ true) e
        (closes-act_all before (drive (start_run events raised)) refl) in
    let closing_run = closes-repeat m drives s started in
    let (over, short) = drives_finish m s h in
    elim (Bool-cases driven.ended) [
      | inl done ↦ ended-repeat n driven done
      | inr ongoing ↦
          takes_end n driven.queue driven refl (sentinel_left driven closing_run over ongoing)
            (omega arith)
    ]

-- Nothing a client does ends the stream of a run that was cancelled before its task took a step.
pub cancelled_first_hangs :
    (events : List FlowRunEvent) (raised : Option String) (actions : List Action)
    → (act_all (cancels ∷ actions) (start_run events raised)).ended ≡ false
unfolding act_all act start_run cancel cancel_task drive drive_step take_event take_queue
cancelled_first_hangs events raised actions = hangs actions
  where
    still : RunState
    still = record { task = finished; queue = []; yielded = []; ended = false }

    hangs : (actions : List Action) → (act_all actions still).ended ≡ false
    hangs [] = refl
    hangs (drives ∷ more) = hangs more
    hangs (cancels ∷ more) = hangs more
    hangs (takes ∷ more) = hangs more
