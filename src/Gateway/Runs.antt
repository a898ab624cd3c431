-- ===== src/Gateway/Runs.antt =====
-- saap/gateway/orchestrator.py: one run of `InProcessOrchestrator`, as the steps of its two sides. The
-- task `_drive` fills the run's queue; the client's `events` empties it. What the runtime yields, and
-- the text of the exception that it then raises, if it does, is a parameter. The queue has no bound, so
-- `put` never waits, and a cancellation reaches the task where it waits for the runtime.
use ai_voice.Prelude.{
  ℕ, zero, suc, Bool, true, false, Option, none, some, String, List, [], ◌∷◌, ◌++◌,
}
use ai_voice.Prelude.Exec.{Result, err}
use ai_voice.Core.Flow.{FlowRunEvent, ApprovalDecision}

-- The task: created and not started, waiting for the runtime, in its `finally`, and over.
pub data Task : Type 0 where
  created : List FlowRunEvent → Option String → Task
  driving : List FlowRunEvent → Option String → Task
  closing : Task
  finished : Task

-- A run; `ended` is whether the client's `events` has returned.
pub record RunState : Type 0 where
  pub task : Task
  pub queue : List (Option FlowRunEvent)
  pub yielded : List FlowRunEvent
  pub ended : Bool

-- `start`: the queue is new and the task is created.
unfoldable pub start_run : List FlowRunEvent → Option String → RunState
start_run events raised = record {
  task = created events raised;
  queue = [];
  yielded = [];
  ended = false;
}

-- The event that the client gets of an exception.
abbrev pub error_event : String → FlowRunEvent
error_event text = record { kind = "error"; payload = some text }

abbrev pub error_events : Option String → List FlowRunEvent
error_events none = []
error_events (some text) = error_event text ∷ []

-- One step of `_drive`: what it puts into the queue, and the task behind it.
unfoldable pub drive_step : Task → List (Option FlowRunEvent) × Task
drive_step (created es raised) = ([], driving es raised)
drive_step (driving (e ∷ es) raised) = (some e ∷ [], driving es raised)
drive_step (driving [] none) = ([], closing)
drive_step (driving [] (some text)) = (some (error_event text) ∷ [], closing)
drive_step closing = (none ∷ [], finished)
drive_step finished = ([], finished)

unfoldable pub drive : RunState → RunState
drive s = let (put, task) = drive_step s.task in record s { task = task; queue = s.queue ++ put }

-- `task.cancel()`. The exception is raised where the task waits, and its `finally` runs; a task that
-- has not started yet is closed at once, in front of its `try`.
unfoldable pub cancel_task : Task → Task
cancel_task (created es raised) = finished
cancel_task (driving es raised) = closing
cancel_task closing = closing
cancel_task finished = finished

unfoldable pub cancel : RunState → RunState
cancel s = record s { task = cancel_task s.task }

-- One round of `events`: it waits where the queue is empty, and returns at the sentinel.
unfoldable pub take_queue : List (Option FlowRunEvent) → RunState → RunState
take_queue [] s = s
take_queue (none ∷ queue) s = record s { queue = queue; ended = true }
take_queue (some e ∷ queue) s = record s { queue = queue; yielded = s.yielded ++ e ∷ [] }

unfoldable pub take_event : RunState → RunState
take_event s = elim s.ended [ true ↦ s | false ↦ take_queue s.queue s ]

pub data Action : Type 0 where
  drives cancels takes : Action

unfoldable pub act : Action → RunState → RunState
act drives s = drive s
act cancels s = cancel s
act takes s = take_event s

-- Any interleaving of the two sides and of cancellations.
unfoldable pub act_all : List Action → RunState → RunState
act_all [] s = s
act_all (a ∷ more) s = act_all more (act a s)

-- n actions of one kind
unfoldable pub repeat : ℕ → Action → RunState → RunState
repeat zero a s = s
repeat (suc n) a s = repeat n a (act a s)

-- `InProcessOrchestrator.resume`
unfoldable pub resume_run : String → ApprovalDecision → Result String (Unit {0})
resume_run request_id decision =
    err
      "HITL pause/resume requires the ApprovalRequest store (saap.tenancy, Phase 1 Epic 1.5) which is not wired into the in-process dev orchestrator yet"
