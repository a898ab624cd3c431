-- ===== src/Speech/Piper/Drain.antt =====
-- Every order of the two threads of saap/plugins/voice/piper/__init__.py.
use mathlib.Core.List.{append_assoc, append-nil}
use ai_voice.Prelude.{
  ℕ, suc, ◌+◌, ◌*◌, ◌≤◌, ◌≡◌, refl, ap, sym, ◌∙◌, ◌⊎◌, inl, inr, true, false, String, List, [], ◌∷◌,
  ◌++◌, map, length, length-append, arith, ◌==◌, string_eq, if◌then◌else◌,
}
use ai_voice.Speech.Piper.{
  Slot, item, sentinel_object, Source, ended, raised, chunk, Worker, running, finished, Threads,
  start, worker_round, consume, Step, put, get, Run, begun, further, Synthesizes, no_more, blank,
  spoken,
}

-- What a generator produces before it ends or is left by an exception.
abbrev pub items_of : {A : Type 0} → Source A → List A
items_of ended = []
items_of raised = []
items_of (chunk a more) = a ∷ items_of more

module _ {A : Type 0} where
  -- How the state of the threads belongs to the items that were to be produced.
  data Inv (total : List A) (s : Threads A) : Type 0 where
    busy :
        (r : Source A) (waiting : List A)
        → s.worker ≡ running r
        → s.queued ≡ map item waiting
        → s.done ≡ false
        → s.yielded ++ (waiting ++ items_of r) ≡ total
        → Inv total s
    ending :
        (waiting : List A)
        → s.worker ≡ finished
        → s.queued ≡ map item waiting ++ sentinel_object ∷ []
        → s.done ≡ false
        → s.yielded ++ waiting ≡ total
        → Inv total s
    over : s.worker ≡ finished → s.queued ≡ [] → s.done ≡ true → s.yielded ≡ total → Inv total s

  -- The rounds of the worker that are to come.
  abbrev rounds_of : Source A → ℕ
  rounds_of ended = 1
  rounds_of raised = 1
  rounds_of (chunk a more) = suc (rounds_of more)

  abbrev rounds : Worker A → ℕ
  rounds (running r) = rounds_of r
  rounds finished = 0

  abbrev turns : Threads A → ℕ
  turns s = rounds s.worker + (rounds s.worker + length s.queued)

  round-rounds :
      (r : Source A)
      → suc (rounds (worker_round r).0 + rounds (worker_round r).0 + length (worker_round r).1)
        ≡ rounds_of r + rounds_of r
  unfolding worker_round
  round-rounds ended = refl
  round-rounds raised = refl
  round-rounds (chunk a more) = omega arith

  Step-turns : {s t : Threads A} → Step s t → suc (turns t) ≡ turns s
  unfolding consume
  Step-turns (put r s h) = rw (h, length-append) (omega (arith, round-rounds r))
  Step-turns (get (item a) rest s h k) = rw (h) (omega arith)
  Step-turns (get sentinel_object rest s h k) = rw (h) (omega arith)

  Run-turns : {s : Threads A} {n : ℕ} {t : Threads A} → Run s n t → n + turns t ≡ turns s
  Run-turns begun = omega arith
  Run-turns (further run step) = omega (arith, Run-turns run, Step-turns step)

  map_item-append : (xs : List A) (a : A) → map item xs ++ item a ∷ [] ≡ map item (xs ++ a ∷ [])
  map_item-append [] a = refl
  map_item-append (x ∷ xs) a = ap (λ l. item x ∷ l) (map_item-append xs a)

  put-Inv :
      (total : List A) (r : Source A) (s : Threads A) (waiting : List A)
      → s.queued ≡ map item waiting
      → s.done ≡ false
      → s.yielded ++ (waiting ++ items_of r) ≡ total
      → Inv total
          (record s { worker = (worker_round r).0; queued = s.queued ++ (worker_round r).1 })
  unfolding worker_round
  put-Inv total ended s waiting h k l =
      ending waiting refl (ap (λ q. q ++ sentinel_object ∷ []) h) k
        (ap (λ w. s.yielded ++ w) (sym (append-nil waiting)) ∙ l)
  put-Inv total raised s waiting h k l =
      ending waiting refl (ap (λ q. q ++ sentinel_object ∷ []) h) k
        (ap (λ w. s.yielded ++ w) (sym (append-nil waiting)) ∙ l)
  put-Inv total (chunk a more) s waiting h k l =
      busy more (waiting ++ a ∷ []) refl (ap (λ q. q ++ item a ∷ []) h ∙ map_item-append waiting a)
        k (ap (λ w. s.yielded ++ w) (append_assoc waiting (a ∷ []) (items_of more)) ∙ l)

  get-busy :
      (total : List A) (r : Source A) (s : Threads A) (slot : Slot A) (rest : List (Slot A))
      (waiting : List A)
      → s.worker ≡ running r
      → s.queued ≡ slot ∷ rest
      → s.queued ≡ map item waiting
      → s.done ≡ false
      → s.yielded ++ (waiting ++ items_of r) ≡ total
      → Inv total (consume slot rest s)
  unfolding consume
  get-busy total r s slot rest [] w h q k l = absurd (ground arith)
  get-busy total r s (item a) rest (x ∷ xs) w h q k l = busy r xs w (ground arith) k (
      append_assoc s.yielded (a ∷ []) (xs ++ items_of r)
      ∙ ap (λ z. s.yielded ++ z ∷ (xs ++ items_of r)) (ground (arith, h, q))
      ∙ l)
  get-busy total r s sentinel_object rest (x ∷ xs) w h q k l = absurd (ground arith)

  get-ending :
      (total : List A) (s : Threads A) (slot : Slot A) (rest : List (Slot A)) (waiting : List A)
      → s.worker ≡ finished
      → s.queued ≡ slot ∷ rest
      → s.queued ≡ map item waiting ++ sentinel_object ∷ []
      → s.done ≡ false
      → s.yielded ++ waiting ≡ total
      → Inv total (consume slot rest s)
  unfolding consume
  get-ending total s (item a) rest [] w h q k l = absurd (ground arith)
  get-ending total s sentinel_object rest [] w h q k l =
      over w (ground arith) refl (sym (append-nil s.yielded) ∙ l)
  get-ending total s (item a) rest (x ∷ xs) w h q k l = ending xs w (ground arith) k (
      append_assoc s.yielded (a ∷ []) xs ∙ ap (λ z. s.yielded ++ z ∷ xs) (ground (arith, h, q)) ∙ l)
  get-ending total s sentinel_object rest (x ∷ xs) w h q k l = absurd (ground arith)

  Step-Inv : (total : List A) {s t : Threads A} → Inv total s → Step s t → Inv total t
  Step-Inv total (busy r waiting w q d y) (put r' s h) =
      let same : r ≡ r' = ground (arith, w, h) in
      put-Inv total r' s waiting q d (ap (λ z. s.yielded ++ (waiting ++ items_of z)) (sym same) ∙ y)
  Step-Inv total (busy r waiting w q d y) (get slot rest s h k) =
      get-busy total r s slot rest waiting w h q d y
  Step-Inv total (ending waiting w q d y) (put r' s h) = absurd (ground arith)
  Step-Inv total (ending waiting w q d y) (get slot rest s h k) =
      get-ending total s slot rest waiting w h q d y
  Step-Inv total (over w q d y) (put r' s h) = absurd (ground arith)
  Step-Inv total (over w q d y) (get slot rest s h k) = absurd (ground arith)

  Run-Inv : (src : Source A) {n : ℕ} {t : Threads A} → Run (start src) n t → Inv (items_of src) t
  unfolding start
  Run-Inv src begun = busy src [] refl refl refl refl
  Run-Inv src (further run step) = Step-Inv (items_of src) (Run-Inv src run) step

  progress :
      (total : List A) {s : Threads A}
      → Inv total s
      → ((s.done ≡ true) × (s.yielded ≡ total)) ⊎ ((t : Threads A) × Step s t)
  progress total {s = s} (busy r waiting w q d y) = inr (_, put r s w)
  progress total {s = s} (ending [] w q d y) = inr (_, get sentinel_object [] s q d)
  progress total {s = s} (ending (x ∷ xs) w q d y) =
      inr (_, get (item x) (map item xs ++ sentinel_object ∷ []) s q d)
  progress total {s = s} (over w q d y) = inl (d, y)

  rounds-items : (src : Source A) → rounds_of src ≡ suc (length (items_of src))
  rounds-items ended = refl
  rounds-items raised = refl
  rounds-items (chunk a more) = omega (arith, rounds-items more)

-- In whatever order the two threads run, and whether the generator ends or raises: there are never more
-- than twice as many steps as it has items, and two; and where no thread can go on, the consumer has
-- stopped and has yielded what the generator produced, in order.
pub iter_in_thread-items :
    {A : Type 0} (src : Source A) (n : ℕ) (t : Threads A)
    → Run (start src) n t
    → (n ≤ 2 + 2 * length (items_of src))
      × (((t.done ≡ true) × (t.yielded ≡ items_of src)) ⊎ ((u : Threads A) × Step t u))
unfolding start
iter_in_thread-items src n t run =
    (omega (arith, Run-turns run, rounds-items src), progress (items_of src) (Run-Inv src run))

-- sum over the sentences that are not blank
abbrev pub spoken_items :
    {A : Type 0} → (String → Source A) → (String → String) → List String → List A
spoken_items voice strip [] = []
spoken_items voice strip (s ∷ ss) =
    let rest = spoken_items voice strip ss in
    if strip s == "" then rest else items_of (voice s) ++ rest

done_items :
    {A : Type 0} (total : List A) {s : Threads A} → Inv total s → s.done ≡ true → s.yielded ≡ total
done_items total (busy r waiting w q d y) h = absurd (ground arith)
done_items total (ending waiting w q d y) h = absurd (ground arith)
done_items total (over w q d y) h = y

-- Whatever the order of the threads, synthesis yields the chunks of the sentences that are not blank, in
-- order and complete.
pub synthesize-items :
    {A : Type 0} (voice : String → Source A) (strip : String → String) (sentences : List String)
    (out : List A)
    → Synthesizes voice strip sentences out
    → out ≡ spoken_items voice strip sentences
synthesize-items voice strip [] out no_more = refl
synthesize-items voice strip (s ∷ ss) out (blank _ h rest) =
    rw (h) (synthesize-items voice strip ss out rest)
synthesize-items voice strip (s ∷ ss) out (spoken _ {out = after} n t h run d rest) =
    rw (h, done_items (items_of (voice s)) (Run-Inv (voice s) run) d)
      (ap (λ o. items_of (voice s) ++ o) (synthesize-items voice strip ss after rest))
