-- ===== src/Speech/Piper.antt =====
-- saap/plugins/voice/piper/__init__.py: the synthesis. A voice and `str.strip` are parameters. `_iter_in_thread` is
-- two threads and a queue: what either does next is a step, and they take steps in any order.
pub mod Drain
use ai_voice.Prelude.{
  ℕ, suc, ◌+◌, zero, Bool, true, false, ◌≡◌, String, List, [], ◌∷◌, ◌++◌, ◌==◌, string_eq,
  if◌then◌else◌,
}
use ai_voice.Prelude.Exec.{Result, ok, err}

pub data Slot (A : Type 0) : Type 0 where
  item : A → Slot A
  sentinel_object : Slot A

-- What the blocking generator does: it ends, or an exception leaves it.
pub data Source (A : Type 0) : Type 0 where
  ended raised : Source A
  chunk : A → Source A → Source A

-- Where the worker is: it asks the generator for the rest, or its `finally` has run.
pub data Worker (A : Type 0) : Type 0 where
  running : Source A → Worker A
  finished : Worker A

pub record Threads (A : Type 0) : Type 0 where
  pub worker : Worker A
  pub queued : List (Slot A)
  pub yielded : List A
  pub done : Bool

unfoldable pub start : {A : Type 0} → Source A → Threads A
start sync_iter = record { worker = running sync_iter; queued = []; yielded = []; done = false }

-- One round of `worker`: it puts an item, or `finally` puts the sentinel, for an exception as well.
unfoldable pub worker_round : {A : Type 0} → Source A → Worker A × List (Slot A)
worker_round (chunk a more) = (running more, item a ∷ [])
worker_round ended = (finished, sentinel_object ∷ [])
worker_round raised = (finished, sentinel_object ∷ [])

-- What the consumer's round does with what `q.get` returned.
unfoldable pub consume : {A : Type 0} → Slot A → List (Slot A) → Threads A → Threads A
consume (item a) rest s = record s { queued = rest; yielded = s.yielded ++ a ∷ [] }
consume sentinel_object rest s = record s { queued = rest; done = true }

-- `q.get` waits while the queue is empty.
pub data Step {A : Type 0} : Threads A → Threads A → Type 0 where
  put :
      (source : Source A) (s : Threads A)
      → s.worker ≡ running source
      → Step s (record s {
        worker = (worker_round source).0;
        queued = s.queued ++ (worker_round source).1;
      })
  get :
      (slot : Slot A) (rest : List (Slot A)) (s : Threads A)
      → s.queued ≡ slot ∷ rest
      → s.done ≡ false
      → Step s (consume slot rest s)

-- Steps one after the other, counted.
pub data Run {A : Type 0} (s : Threads A) : ℕ → Threads A → Type 0 where
  begun : Run s 0 s
  further : {n : ℕ} {t u : Threads A} → Run s n t → Step t u → Run s (suc n) u

-- `PiperTTS.synthesize`: what it yields of the sentences; each that is not blank has threads of its own,
-- which are left when their consumer is done.
pub data Synthesizes {A : Type 0} (voice : String → Source A) (strip : String → String)
    : List String → List A → Type 0 where
  no_more : Synthesizes voice strip [] []
  blank :
      (sentence : String) {sentences : List String} {out : List A}
      → (strip sentence == "") ≡ true
      → Synthesizes voice strip sentences out
      → Synthesizes voice strip (sentence ∷ sentences) out
  spoken :
      (sentence : String) {sentences : List String} {out : List A} (n : ℕ) (t : Threads A)
      → (strip sentence == "") ≡ false
      → Run (start (voice sentence)) n t
      → t.done ≡ true
      → Synthesizes voice strip sentences out
      → Synthesizes voice strip (sentence ∷ sentences) (t.yielded ++ out)
