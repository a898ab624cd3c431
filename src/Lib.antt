-- ===== src/Lib.antt =====
-- A model of a compliance-first voice and chat agent platform, and theorems about it.
--
-- A message reaches the gateway, passes the compliance chain (consent, masking, policy, budget, audit)
-- around the start of a flow run, and the flow calls a model and tools, some of them after a human has
-- approved them. A scheduler starts campaign runs, and a linter admits flows before they are served.
--
-- Files, and the code that they are about:
--   Prelude, Prelude/*: tests, dictionaries, texts, and methods that mutate and may raise. Floats: what
--     the code does with a float, as a parameter of which no law is assumed.
--   Core/Types, Core/Flow: saap/core/types.py and saap/core/flow.py, one record for each class.
--   Core/TokenPattern: the regular expression of vault tokens in saap/compliance/pii.py, written out,
--     with `re.findall` and `str.replace`.
--   Compliance/Chain: saap/compliance/chain.py. A stage is a pair of methods over one state; `wrap`,
--     `run_before` and `run_after` are `ComplianceChain`'s methods of these names. Chain/Onion states
--     `wrap` as nested calls, Chain/TwoPhase relates the two halves.
--   Compliance/Consent, Policy, RateLimit, Audit, Pii: the modules of these names in saap/compliance,
--     each with its store, its operations and its stage. Policy/Rego: policies/saap_actions.rego.
--     Pii/Presidio: the analyzer over Presidio's engine. Pii/Order and Pii/Masking are about `_mask`,
--     Pii/Vault about the tokens; RateLimit/Window runs the stage on calls that follow one another.
--   Compliance/Runtime: `InterceptedRuntime` of saap/compliance/runtime.py.
--   Compliance/Platform: what the code takes from hashlib, json, uuid, os and cryptography, as a
--     parameter; collision freedom and decryption are hypotheses where a theorem needs them.
--   Gateway/Defs: `build_compliance_chain` of saap/gateway/app.py and `InProcessOrchestrator.start`.
--   Hitl: saap/langflow_components/logic/hitl_checkpoint.py. Sequences of its operations are in
--     Hitl/Lifecycle, the sweep in Hitl/Expiry.
--   Scheduler: saap/scheduler/flow_scheduler.py.
--   Linter/Graph, Linter/Rules: tools/flow_linter/linter.py; Linter/Search and Linter/Passing are its
--     theorems, and Linter/Report holds the report's id and the command line.
--   Mcp/Pool: saap/core/mcp.py. Mcp/Toolkit: saap/langflow_components/logic/mcp_toolkit.py.
--   Registry: saap/core/registry.py. Registry/Plugins: the entry points of pyproject.toml and the
--     `register` functions of saap/plugins.
--   Calendar, Crm: the stores and the tools of mcp-servers/calendar and mcp-servers/twenty-crm.
--   Sql: mcp-servers/sql-readonly/guard.py and server.py. Sql/Executor: its executor.py.
--   Compliance/Breach, Compliance/Erasure: saap/compliance/breach.py and erasure.py.
--   Ingest: saap/ingest/pipeline.py. Ingest/Chunks is about the chunker, Ingest/Resync about
--     synchronising twice, Ingest/Boundary about exclusion and deletion; Ingest/PlainText is the parser.
--   Rag: `RAGService` of saap/core/memory.py, and grounded_responder.py and rag_retriever.py of
--     saap/langflow_components/logic. Rag/Grounding is about the check of an answer's sentences.
--   Fakes: saap/core/fakes.py. Fakes/Isolation reads any calls of the vector store as one tenant's.
--   I18n: saap/core/i18n.py. Core/TokenPattern/Spans and Replace are about the spans and `str.replace`.
--   LicenseGate, EvalHarness: tools/license_gate/gate.py and tools/eval_harness/harness.py.
--     LicenseGate/Exit and Shadow are about the exit code and the order of the lists, Report holds the
--     printed lines.
--   Gateway/Runs: one run of `InProcessOrchestrator` of saap/gateway/orchestrator.py, with the steps of
--     its task and of its client in any order; Gateway/Stream and Gateway/Delivery are about them.
--   Gateway/Channels: auth.py, channels.py and webhook.py of saap/gateway. Gateway/Matrix: its
--     matrix_whatsapp.py. Gateway/Chat: its webchat.py, and `ws_chat` of its app.py. Gateway/Entry is
--     about who gets in.
--   Gateway/Settings: `build_runtime_and_flow` of saap/gateway/app.py.
--   Gateway/Runtimes: langflow_runtime.py and dev_runtime.py of saap/gateway. Gateway/Reply is about a
--     model's stream, a run and the Matrix adapter together, Gateway/Room adds Ollama's lines.
--   Compliance/Evidence, Compliance/Canvas: saap/compliance/evidence_pack.py, and compliance_ingress.py
--     and audit_close.py of saap/langflow_components/logic.
--   Tenancy: saap/tenancy. ModelRouter: the router of saap/core/llm.py and model_router_llm.py.
--   Voice: saap/voice/session_runtime.py, and Voice/Latency its ledger of saap/core/voice.py.
--   Speech: the engines of saap/plugins/voice, the detector of speech (Vad), the transcriber (Whisper)
--     and the synthesis (Piper), whose two threads take their steps in any order. Whisper/Utterance
--     joins the transcriber with a turn of the voice runtime.
--   Engines: saap/core/llm.py and the providers of saap/plugins/llm; Engines/Agreement is about their
--     streams.
--   Billing: saap/core/billing.py and saap/plugins/billing/lago. Billing/Retries is about sending again.
--   Roi: saap/verticals/audit. LeadScore: saap/verticals/realestate/lead_score.py.
--   Qdrant: saap/plugins/memory/qdrant/__init__.py; Qdrant/Isolation is about its shared collection.
--   Pgvector: saap/plugins/memory/pgvector/__init__.py. Quoting holds the names of tables, Store the
--     statements and the four methods; Names, Bindings, Transactions, Isolation, Erasure and
--     Rollback are about them.
--   Tests: concrete inputs, and the theorems at them.
--
-- Bounds and fuel. A search of the linter gets two rounds more than the graph has edges: every edge
-- is pushed at most once, and the theorems on the searches show that this is enough. `findall` and
-- `replace` get one round for each character, and each round takes one. The chunker's loop gets one
-- round more than there are words, which is enough where the overlap is below the target. Instants,
-- ticks of the clock and versions are natural numbers, as Python's integers have no bound. The steps that
-- are left to a task of the orchestrator are counted in Gateway/Stream.
--
-- Not modelled: HTTP, databases, models for speech and text, JSON, YAML and regular expressions
-- other than the token pattern, which are parameters; the schema scripts in migrations, the wiring of
-- FastAPI, argument parsing, and the layout of a PDF. The text of an SQL statement is its template with
-- the table and the conditions that are put into it, so what a filter's key could do to that text is
-- kept out by a hypothesis on keys. Asynchronous calls are sequences of steps. Where calls of several
-- replicas, a task and its client, or two threads interleave, the sequence is explicit.
pub mod Prelude
pub mod Core
pub mod Compliance
pub mod Gateway
pub mod Hitl
pub mod Scheduler
pub mod Linter
pub mod Mcp
pub mod Registry
pub mod Calendar
pub mod Crm
pub mod Sql
pub mod Ingest
pub mod Rag
pub mod I18n
pub mod LicenseGate
pub mod EvalHarness
pub mod Fakes
pub mod Tenancy
pub mod ModelRouter
pub mod Voice
pub mod LeadScore
pub mod Qdrant
pub mod Pgvector
pub mod Engines
pub mod Speech
pub mod Billing
pub mod Roi
pub mod Tests
