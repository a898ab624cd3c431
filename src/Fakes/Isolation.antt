-- ===== src/Fakes/Isolation.antt =====
-- `FakeVectorStore` of saap/core/fakes.py: what a tenant finds after any calls of any tenants, alone
-- and through `RAGService.retrieve`.
use ai_voice.Prelude.{
  ℕ, suc, zero, ◌≡◌, refl, ap, ◌∙◌, Bool, false, String, List, [], ◌∷◌, ◌++◌, map, take, arith,
  ◌==◌, if◌then◌else◌, string_eq, ◌≤◌, ◌*◌,
}
use ai_voice.Prelude.Dict.{get_or, lookup, lookup-insert}
use ai_voice.Prelude.Exec.{ok, Exec}
use ai_voice.Core.Types.{TenantContext}
use ai_voice.Ingest.{DocumentChunk}
use ai_voice.Rag.{max, retrieve}
use ai_voice.Fakes.{
  Rows, rows_of, upsert, without_source, delete_by_source, hit, search, place, sort_by_score,
  rerank, fake_rag,
}

pub data StoreOp : Type 0 where
  upserts : TenantContext → List DocumentChunk → StoreOp
  deletes : TenantContext → String → StoreOp

abbrev pub run : List StoreOp → Rows → Rows
run [] rows = rows
run (upserts tenant chunks ∷ ops) rows = run ops (upsert tenant chunks rows)
run (deletes tenant source_uri ∷ ops) rows = run ops (delete_by_source tenant source_uri rows).1

-- The same calls, seen by one tenant: a list of chunks, which the other tenants' calls do not touch.
abbrev pub replay : String → List StoreOp → List DocumentChunk → List DocumentChunk
replay tenant_id [] mine = mine
replay tenant_id (upserts tenant chunks ∷ ops) mine =
    replay tenant_id ops (if tenant.tenant_id == tenant_id then mine ++ chunks else mine)
replay tenant_id (deletes tenant source_uri ∷ ops) mine =
    replay tenant_id ops
      (if tenant.tenant_id == tenant_id then without_source source_uri mine else mine)

rows_of-upsert :
    (tenant other : TenantContext) (chunks : List DocumentChunk) (rows : Rows)
    → rows_of other (upsert tenant chunks rows) ≡ (
        if tenant.tenant_id == other.tenant_id
        then rows_of other rows ++ chunks
        else rows_of other rows)
unfolding rows_of upsert get_or
rows_of-upsert tenant other chunks rows = ground (
  arith,
  lookup-insert tenant.tenant_id other.tenant_id (rows_of tenant rows ++ chunks) rows,
  string_eq.beq_iff tenant.tenant_id other.tenant_id,
)

rows_of-delete_by_source :
    (tenant other : TenantContext) (source_uri : String) (rows : Rows)
    → rows_of other (delete_by_source tenant source_uri rows).1 ≡ (
        if tenant.tenant_id == other.tenant_id
        then without_source source_uri (rows_of other rows)
        else rows_of other rows)
unfolding rows_of delete_by_source get_or
rows_of-delete_by_source tenant other source_uri rows = ground (
  arith,
  lookup-insert tenant.tenant_id other.tenant_id (without_source source_uri (rows_of tenant rows))
      rows,
  string_eq.beq_iff tenant.tenant_id other.tenant_id,
)

rows_of-run :
    (tenant : TenantContext) (ops : List StoreOp) (rows : Rows)
    → rows_of tenant (run ops rows) ≡ replay tenant.tenant_id ops (rows_of tenant rows)
rows_of-run tenant [] rows = refl
rows_of-run tenant (upserts other chunks ∷ ops) rows =
    rows_of-run tenant ops (upsert other chunks rows)
    ∙ ap (replay tenant.tenant_id ops) (rows_of-upsert other tenant chunks rows)
rows_of-run tenant (deletes other source_uri ∷ ops) rows =
    rows_of-run tenant ops (delete_by_source other source_uri rows).1
    ∙ ap (replay tenant.tenant_id ops) (rows_of-delete_by_source other tenant source_uri rows)

-- Whatever the tenants upsert and delete, in whatever order, a search of one of them from the empty
-- store finds the first `k` chunks of its own calls alone.
pub search-run :
    {F : Type 0} (one : F) (tenant : TenantContext) (k : ℕ) (ops : List StoreOp)
    → search one tenant k (run ops []) ≡ map (hit one) (take k (replay tenant.tenant_id ops []))
unfolding search rows_of get_or lookup
search-run one tenant k ops = ap (λ cs. map (hit one) (take k cs)) (rows_of-run tenant ops [])

module _ {F : Type 0} (one : F) (gt : F → F → Bool) (h : gt one one ≡ false) where
  place-map :
      (c : DocumentChunk) (cs : List DocumentChunk)
      → place gt (hit one c) (map (hit one) cs) ≡ map (hit one) (c ∷ cs)
  unfolding place
  place-map c [] = refl
  place-map c (d ∷ cs) = rw (h) refl

  sort_by_score-map :
      (chunks : List DocumentChunk) → sort_by_score gt (map (hit one) chunks) ≡ map (hit one) chunks
  unfolding sort_by_score
  sort_by_score-map [] = refl
  sort_by_score-map (c ∷ cs) = rw (sort_by_score-map cs) (place-map c cs)

take-map : {A B : Type 0} (f : A → B) (n : ℕ) (xs : List A) → take n (map f xs) ≡ map f (take n xs)
take-map f zero xs = refl
take-map f (suc n) [] = refl
take-map f (suc n) (x ∷ xs) = ap (λ ys. f x ∷ ys) (take-map f n xs)

take-take : {A : Type 0} (m n : ℕ) (xs : List A) → m ≤ n → take m (take n xs) ≡ take m xs
take-take zero n xs h = refl
take-take (suc m) zero xs h = absurd (omega arith)
take-take (suc m) (suc n) [] h = refl
take-take (suc m) (suc n) (x ∷ xs) h = ap (λ ys. x ∷ ys) (take-take m n xs (omega arith))

le-max : (k : ℕ) → k ≤ max (k * 4) 20
unfolding max
le-max k = ground arith

-- Retrieval over these fakes: it returns the first `k` chunks of the tenant's own calls, in their
-- order, and leaves the store as it is, where the score 1.0 is not above itself.
pub retrieve-run :
    {E F : Type 0} (one : F) (gt : F → F → Bool) (generate : String → Exec E Rows String)
    (tenant : TenantContext) (query : String) (k : ℕ) (ops : List StoreOp)
    → gt one one ≡ false
    → retrieve (fake_rag one gt generate) tenant query k (run ops [])
      ≡ (ok (map (hit one) (take k (replay tenant.tenant_id ops []))), run ops [])
unfolding retrieve fake_rag rerank
retrieve-run one gt generate tenant query k ops h =
    ap (λ found. (ok found, run ops []))
      (rw
        (
          search-run one tenant (max (k * 4) 20) ops,
          sort_by_score-map one gt h (take (max (k * 4) 20) (replay tenant.tenant_id ops [])),
          take-map (hit one) k (take (max (k * 4) 20) (replay tenant.tenant_id ops [])),
          take-take k (max (k * 4) 20) (replay tenant.tenant_id ops []) (le-max k),
        )
        refl)
