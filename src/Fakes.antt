-- ===== src/Fakes.antt =====
-- saap/core/fakes.py: the in-memory vector store, reranker, embedder, model, event bus and MCP
-- connection that the tests of every part run on.
pub mod Isolation
use ai_voice.Prelude.{
  ℕ, zero, suc, ◌+◌, ◌-◌, ◌%◌, Bool, true, false, not, String, Option, none, some, List, [], ◌∷◌,
  ◌++◌, map, keep, elem, take, length, ◌==◌, string_eq, if◌then◌else◌,
}
use ai_voice.Prelude.Dict.{Dict, insert, get_or}
use ai_voice.Prelude.Text.{append, count, split_first}
use ai_voice.Prelude.Exec.{Exec, pure, ◌>>=◌}
use ai_voice.Core.Types.{TenantContext, Message, Value, ToolResult}
use ai_voice.Core.Flow.{FlowRef, FlowRunEvent}
use ai_voice.Ingest.{DocumentChunk}
use ai_voice.Rag.{RetrievedChunk, RagPorts}

-- `FakeVectorStore._rows`
abbrev pub Rows : Type 0
Rows = Dict String (List DocumentChunk)

unfoldable pub rows_of : TenantContext → Rows → List DocumentChunk
rows_of tenant rows = get_or tenant.tenant_id [] rows

-- The vectors are not kept.
unfoldable pub upsert : TenantContext → List DocumentChunk → Rows → Rows
upsert tenant chunks rows = insert tenant.tenant_id (rows_of tenant rows ++ chunks) rows

unfoldable pub without_source : String → List DocumentChunk → List DocumentChunk
without_source source_uri chunks =
    keep (λ (c : DocumentChunk). not (c.source_uri == source_uri)) chunks

unfoldable pub delete_by_source : TenantContext → String → Rows → ℕ × Rows
delete_by_source tenant source_uri rows =
    let chunks = rows_of tenant rows in
    let kept = without_source source_uri chunks in
    (length chunks - length kept, insert tenant.tenant_id kept rows)

module _ {F : Type 0} (one : F) where
  abbrev pub hit : DocumentChunk → RetrievedChunk F
  hit c = record { chunk = c; score = one }

  -- The query's vector and the filters are not looked at.
  unfoldable pub search : TenantContext → ℕ → Rows → List (RetrievedChunk F)
  search tenant k rows = map hit (take k (rows_of tenant rows))

-- `FakeReranker.rerank`: `sorted(..., reverse=True)`, which keeps the order of equal scores.
module _ {F : Type 0} (gt : F → F → Bool) where
  unfoldable pub place : RetrievedChunk F → List (RetrievedChunk F) → List (RetrievedChunk F)
  place rc [] = rc ∷ []
  place rc (x ∷ xs) =
      let rest = place rc xs in if gt x.score rc.score then x ∷ rest else rc ∷ x ∷ xs

  unfoldable pub sort_by_score : List (RetrievedChunk F) → List (RetrievedChunk F)
  sort_by_score [] = []
  sort_by_score (rc ∷ rcs) = place rc (sort_by_score rcs)

  unfoldable pub rerank : List (RetrievedChunk F) → ℕ → List (RetrievedChunk F)
  rerank chunks top_n = take top_n (sort_by_score chunks)

-- `FakeEmbeddingProvider.embed` of one text; `i` counts the dimensions that are left.
unfoldable pub embed_from : ℕ → ℕ → String → List ℕ
embed_from zero i text = []
embed_from (suc n) i text = (count text + i) % 7 ∷ embed_from n (suc i) text

-- dimension = 8
unfoldable pub embed : String → List ℕ
embed text = embed_from 8 0 text

-- What `RAGService` is given in the tests: the three fakes, and a verifier.
unfoldable pub fake_rag :
    {E F : Type 0} → F → (F → F → Bool) → (String → Exec E Rows String) → RagPorts E Rows (List ℕ) F
fake_rag one gt generate = record {
  embed = λ query. pure (embed query);
  search = λ tenant query_vector k rows. pure (search one tenant k rows) rows;
  rerank = λ query chunks top_n. pure (rerank gt chunks top_n);
  generate = generate;
}

-- `FakeLLMProvider`. The responses are `first` and `more`, as an empty list becomes ["ok"].
pub record FakeModel : Type 0 where
  pub first : String
  pub more : List String
  pub next_json : Option String
  pub i : ℕ
  pub calls : List (List String)

-- list(responses) or ["ok"]
unfoldable pub new_model : List String → Option String → FakeModel
new_model [] next_json = record {
  first = "ok";
  more = [];
  next_json = next_json;
  i = 0;
  calls = [];
}
new_model (r ∷ rs) next_json = record {
  first = r;
  more = rs;
  next_json = next_json;
  i = 0;
  calls = [];
}

-- rs[n], and the first one out of range
unfoldable pub response_at : ℕ → String → List String → String
response_at zero r rs = r
response_at (suc n) r [] = r
response_at (suc n) r (x ∷ rs) = response_at n x rs

-- The text of the completion; `wants_json` is whether the call gives a schema. The messages are kept
-- by their contents.
unfoldable pub generate : List String → Bool → FakeModel → String × FakeModel
generate messages wants_json m =
    let m' = record m { calls = m.calls ++ messages ∷ [] } in
    let scripted : String × FakeModel =
      (response_at (m.i % suc (length m.more)) m.first m.more, record m' { i = m.i + 1 }) in
    if wants_json then (elim m.next_json [ none ↦ scripted | some text ↦ (text, m') ]) else scripted

-- text.split(" "), by the characters that are left
unfoldable pub split_spaces : ℕ → String → List String
split_spaces zero text = text ∷ []
split_spaces (suc fuel) text = elim (split_first b' ' text) [
  | none ↦ text ∷ []
  | some (a, b) ↦ a ∷ split_spaces fuel b
]

-- What `stream` yields of a completion.
unfoldable pub stream : String → List String
stream text = map (λ chunk. append chunk " ") (split_spaces (count text) text)

pub record DomainEvent : Type 0 where
  pub kind : String
  pub payload : String

-- `FakeEventBus`: what was published, and what a subscription to these kinds yields of it.
unfoldable pub publish : DomainEvent → List DomainEvent → List DomainEvent
publish event published = published ++ event ∷ []

unfoldable pub subscribe : List String → List DomainEvent → List DomainEvent
subscribe kinds published = keep (λ (e : DomainEvent). elem e.kind kinds) published

-- `FakeMCPConnection`: the scripted result, if there is one, or the arguments given back.
pub record FakeConnection : Type 0 where
  pub tools : List String
  pub result : Option ToolResult
  pub closed : Bool
  pub calls : List (String × Value)

unfoldable pub call_tool :
    String → (Value → Value) → String → Value → FakeConnection → ToolResult × FakeConnection
call_tool uuid echo name arguments c = (
  elim c.result [
    | none ↦ record {
      call_id = uuid;
      succeeded = true;
      content = some (echo arguments);
      error = none;
    }
    | some r ↦ r
  ],
  record c { calls = c.calls ++ (name, arguments) ∷ [] },
)

unfoldable pub close : FakeConnection → FakeConnection
close c = record c { closed = true }

-- `FakeLangflowRuntime`: its script, and the runs that it was asked for.
pub record FakeRuntime : Type 0 where
  pub script : List FlowRunEvent
  pub runs : List (TenantContext × FlowRef × Message)

unfoldable pub new_runtime : Option (List FlowRunEvent) → FakeRuntime
new_runtime events = record {
  script = elim events [
    | some es ↦ es
    | none ↦ record { kind = "final"; payload = some "ok" } ∷ []
  ];
  runs = [];
}

unfoldable pub run_flow :
    TenantContext → FlowRef → Message → FakeRuntime → List FlowRunEvent × FakeRuntime
run_flow tenant flow message r =
    (r.script, record r { runs = r.runs ++ (tenant, flow, message) ∷ [] })

unfoldable pub upsert_flow : String → Option String → FlowRef
upsert_flow uuid name = record {
  flow_id = uuid;
  name = elim name [ some n ↦ n | none ↦ "unnamed" ];
  version = "0.0.0-fake";
  checksum = "fake";
  lint_report_id = "fake";
}

unfoldable pub list_tools : FakeConnection → List String
list_tools c = c.tools
