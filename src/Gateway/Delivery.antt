-- ===== src/Gateway/Delivery.antt =====
-- What a client gets of a run of saap/gateway/orchestrator.py that nobody cancels.
use mathlib.Core.List.{append-nil, append_assoc}
use ai_voice.Prelude.{
  ◌≡◌, refl, ◌≢◌, subst, ap, sym, ◌∙◌, Bool, true, false, Option, none, some, String, List, [], ◌∷◌,
  ◌++◌, map, any, arith,
}
use ai_voice.Core.Flow.{FlowRunEvent}
use ai_voice.Gateway.Runs.{
  Task, created, driving, closing, finished, RunState, start_run, error_events, error_event,
  drive_step, drive, take_queue, take_event, Action, drives, cancels, takes, act, act_all,
}

-- The events that a task still puts into the queue.
abbrev rest_of : Task → List FlowRunEvent
rest_of (created es raised) = es ++ error_events raised
rest_of (driving es raised) = es ++ error_events raised
rest_of _ = []

abbrev run_at : Task → List (Option FlowRunEvent) → List FlowRunEvent → RunState
run_at t q ys = record { task = t; queue = q; yielded = ys; ended = false }

abbrev pub is_cancel : Action → Bool
is_cancel cancels = true
is_cancel _ = false

-- What was yielded, what is in the queue and what is to come make up the whole; the sentinel is the
-- last item of the queue.
data Delivers (total : List FlowRunEvent) : RunState → Type 0 where
  ongoing :
      (t : Task) (ys q : List FlowRunEvent)
      → t ≢ finished
      → ys ++ (q ++ rest_of t) ≡ total
      → Delivers total (run_at t (map some q) ys)
  sealed :
      (ys q : List FlowRunEvent)
      → ys ++ q ≡ total
      → Delivers total (run_at finished (map some q ++ none ∷ []) ys)
  over : Delivers total record { task = finished; queue = []; yielded = total; ended = true }

map-snoc :
    (q : List FlowRunEvent) (x : FlowRunEvent) → map some (q ++ x ∷ []) ≡ map some q ++ some x ∷ []
map-snoc [] x = refl
map-snoc (y ∷ q) x = ap (λ r. some y ∷ r) (map-snoc q x)

-- One item moves from the front of one list to the end of another.
move_item :
    {A : Type 0} (xs ys : List A) (a : A) {total : List A}
    → xs ++ a ∷ ys ≡ total
    → xs ++ a ∷ [] ++ ys ≡ total
move_item xs ys a h = append_assoc xs (a ∷ []) ys ∙ h

module _ (total : List FlowRunEvent) where
  at_queue :
      {t : Task} {ys : List FlowRunEvent} {q r : List (Option FlowRunEvent)}
      → q ≡ r
      → Delivers total (run_at t q ys)
      → Delivers total (run_at t r ys)
  at_queue {t} {ys} e d = subst (λ q. Delivers total (run_at t q ys)) e d

  -- The task takes a step that puts nothing, or an event, into the queue.
  quiet_step :
      (t u : Task) (ys q : List FlowRunEvent)
      → u ≢ finished
      → rest_of u ≡ rest_of t
      → ys ++ (q ++ rest_of t) ≡ total
      → Delivers total (run_at u (map some q ++ []) ys)
  quiet_step t u ys q h same e =
      at_queue (sym (append-nil (map some q)))
        (ongoing u ys q h (ap (λ r. ys ++ (q ++ r)) same ∙ e))

  event_step :
      (t u : Task) (x : FlowRunEvent) (ys q : List FlowRunEvent)
      → u ≢ finished
      → rest_of t ≡ x ∷ rest_of u
      → ys ++ (q ++ rest_of t) ≡ total
      → Delivers total (run_at u (map some q ++ some x ∷ []) ys)
  event_step t u x ys q h same e = at_queue (map-snoc q x) (
      ongoing u ys (q ++ x ∷ []) h
        (ap (λ r. ys ++ r) (append_assoc q (x ∷ []) (rest_of u) ∙ ap (λ r. q ++ r) (sym same)) ∙ e))

  Delivers-drive : {s : RunState} → Delivers total s → Delivers total (drive s)
  unfolding drive drive_step
  Delivers-drive (ongoing (created es raised) ys q h e) =
      quiet_step (created es raised) (driving es raised) ys q (ground arith) refl e
  Delivers-drive (ongoing (driving (x ∷ es) raised) ys q h e) =
      event_step (driving (x ∷ es) raised) (driving es raised) x ys q (ground arith) refl e
  Delivers-drive (ongoing (driving [] none) ys q h e) =
      quiet_step (driving [] none) closing ys q (ground arith) refl e
  Delivers-drive (ongoing (driving [] (some text)) ys q h e) =
      event_step (driving [] (some text)) closing (error_event text) ys q (ground arith) refl e
  Delivers-drive (ongoing closing ys q h e) =
      sealed ys q (ap (λ r. ys ++ r) (sym (append-nil q)) ∙ e)
  Delivers-drive (ongoing finished ys q h e) = absurd (h refl)
  Delivers-drive (sealed ys q e) =
      at_queue (sym (append-nil (map some q ++ none ∷ []))) (sealed ys q e)
  Delivers-drive over = over

  Delivers-take_event : {s : RunState} → Delivers total s → Delivers total (take_event s)
  unfolding take_event take_queue
  Delivers-take_event (ongoing t ys [] h e) = ongoing t ys [] h e
  Delivers-take_event (ongoing t ys (x ∷ q) h e) =
      ongoing t (ys ++ x ∷ []) q h (move_item ys (q ++ rest_of t) x e)
  Delivers-take_event (sealed ys [] e) =
      subst
        (λ all. Delivers total record { task = finished; queue = []; yielded = all; ended = true })
        (sym e ∙ append-nil ys) over
  Delivers-take_event (sealed ys (x ∷ q) e) = sealed (ys ++ x ∷ []) q (move_item ys q x e)
  Delivers-take_event over = over

  Delivers-act_all :
      (actions : List Action) {s : RunState}
      → any is_cancel actions ≡ false
      → Delivers total s
      → Delivers total (act_all actions s)
  unfolding act_all act
  Delivers-act_all [] h d = d
  Delivers-act_all (drives ∷ more) h d = Delivers-act_all more h (Delivers-drive d)
  Delivers-act_all (cancels ∷ more) h d = absurd (ground arith)
  Delivers-act_all (takes ∷ more) h d = Delivers-act_all more h (Delivers-take_event d)

  yielded_all : {s : RunState} → Delivers total s → s.ended ≡ true → s.yielded ≡ total
  yielded_all (ongoing t ys q h e) k = absurd (ground arith)
  yielded_all (sealed ys q e) k = absurd (ground arith)
  yielded_all over k = refl

-- However the two sides of a run interleave, a client whose stream has ended got every event that the
-- runtime yielded, each once and in its order, and then the event of its exception if it raised one,
-- where nobody cancelled the run.
pub yielded-events :
    (events : List FlowRunEvent) (raised : Option String) (actions : List Action)
    → any is_cancel actions ≡ false
    → (act_all actions (start_run events raised)).ended ≡ true
    → (act_all actions (start_run events raised)).yielded ≡ events ++ error_events raised
unfolding start_run
yielded-events events raised actions h k =
    let total = events ++ error_events raised in
    yielded_all total
      (Delivers-act_all total actions h (ongoing (created events raised) [] [] (ground arith) refl))
      k
