-- ===== src/Lib.antt =====
-- Verification library of the cognitive RAG system: a multi-tenant assistant that answers from
-- documents and databases.
--
-- The parts and the files that model them:
--
-- * Retrieval (modules/rag_core/retrieval/security_filter.py): SecurityFilter holds
--   `build_search_filter`; Qdrant holds the filter types and, as the record Engine, what the
--   vector store's documentation says of evaluating them; Visibility holds the theorems.
-- * Guard (modules/connectors/security/sql_guard.py): Dialect is `canonical_dialect`, Query is
--   `validate_query` with its tables and patterns, Target is `validate_db_target`, Urls is
--   `safe_build_db_url` and `mask_db_url`, Execute is `execute_read_only_query`. Shapes describes
--   what the patterns are there to catch; Calls, Rejects, Escapes, Keywords, Network and Streaming
--   hold the theorems. sqlparse, `urlsplit`, the resolver, `ipaddress` and the database are
--   parameters.
-- * Graph (modules/rag_core/orchestrator/langgraph): State is state.py with its reducers, Turn the
--   state of a turn and the updates of the nodes, Validator and Egress the nodes of nodes.py,
--   Runner the routing and the runner of workflow.py. Blackboard, Grounding, Correction, Routing
--   and History hold the theorems. The nodes that call a language model, a database or the vector
--   store are the record Services; that they return, rather than raise, is assumed.
-- * Planner (modules/rag_core/orchestrator/query_planner.py): Domain is the plan, Patterns the
--   patterns and keywords, Plan `analyze_and_plan`, by the signals that a question gives; Routes
--   holds the theorems. The graph's planner node calls it.
-- * Governance (modules/governance, modules/tasks/workers/ingestion_tasks.py, core/storage.py):
--   Documents is the documents table with the queries of document_repository.py, Jobs the data of
--   jobs and tasks, Cdc the run of an ingestion job with its change data capture and the staged
--   files, Workers the indexing of one document. Tables holds lemmas on the table; Sync, Runs, Idle,
--   SecondRun and Converge hold the theorems on runs, Indexing and Uploads those on workers, Access
--   those on the list of documents next to the search filter. A connector's documents, sha256,
--   uuid4, `fromisoformat`, the base64 decoder, the indexing of a content and whether a staged file
--   can be removed are parameters; commits are taken to succeed.
-- * Ranking (modules/rag_core/retrieval/reranker.py and
--   modules/rag_core/guardrails/grounding_validator.py): Reranker is `rerank`, Sources the merging
--   of sources and the confidence of an answer, over any totally ordered type of scores (Scores);
--   Order and Merging hold the theorems.
-- * Registry (modules/rag_core/registry/knowledge_registry.py): the knowledge sources.
-- * Auth (modules/auth/domain/models.py): roles and access levels.
-- * Sessions (modules/rag_core/context/models.py and session_context_manager.py): Memory is the
--   working memory and its dictionary form, Store the three places that keep it with `get_memory`,
--   `save_memory`, `clear_memory` and `get_recent_history`, Summary `get_summary_context`. Events
--   is what can happen between two calls; Kept, Steps and Durable hold the theorems. `json` is a
--   parameter, and each call is told whether Redis and the database answer during it. A memory is
--   a value: that a reader of the cache may change the cached object is left out.
-- * Tokens (modules/auth/services/token_service.py, modules/auth/validators.py,
--   modules/auth/policies.py, app/dependencies.py and the login of app/routes/auth.py): Service is
--   the signing and reading of tokens, Passwords the hashing, Access the callers and roles, Accounts
--   the repository of users and the guest, Login `login_user`, Emails the validators. Accepted,
--   RoundTrip, Identity, Passwords and Suffixes hold the theorems. base64 (its laws are the record
--   Base64), `json`, the HMAC, PBKDF2 and bcrypt are parameters; times are whole seconds.
-- * Observatory (modules/observatory/buffer.py and the routes of core/telemetry.py): Leases is
--   `increment_concurrency`, `decrement_concurrency` and `current_concurrency`, Visible the plain
--   record of requests in flight that they implement. Of `record_request` and `record_turn_route`,
--   Requests is what they change in the process and Shared what they send to Redis. Routes is
--   `normalize_backend_route`, ActiveSessions the sessions seen, Alerts `record_alerts`. Refines,
--   Contract, Hours and Histogram hold the theorems. Redis is its sorted sets and hashes with the
--   times at which keys expire; each call is told its time and whether Redis answers, and a
--   pipeline is one step. The dashboard, the probes and the Prometheus text are not modelled.
-- * Text and Prelude hold what these share: Python's `str` methods and `re.search` over lists of
--   code points, lists, dictionaries and sorting.
--
-- Texts that the program takes apart are lists of code points (Text); white space, digits and word
-- characters are those of Unicode (Text/Unicode names the version), letter case is that of ASCII.
-- Texts that it only compares are native strings. Loops on a collection recur on it. The correction
-- loop of the graph takes fuel, and three rounds are proved enough for every state; the batches of a
-- result are streamed on fuel one above the number of rows, proved enough for every positive batch
-- size. A port is printed with at most five digits. Confidences are hundredths. Logging is left out.
pub mod Prelude
pub mod Text
pub mod Auth
pub mod Retrieval
pub mod Guard
pub mod Planner
pub mod Governance
pub mod Ranking
pub mod Registry
pub mod Sessions
pub mod Tokens
pub mod Observatory
pub mod Graph
