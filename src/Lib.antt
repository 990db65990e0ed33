-- ===== src/Lib.antt =====
-- Ahmed Agent: the persistence, approval, recovery and upload core of the server, and its page
-- fetching.
--
-- Parts
--   A chat request makes a run. The run walks through stages (run_state.py), stands in the table of
--   runs under a lease of its worker (persistence_runs.py), and records checkpoints and audit events
--   (persistence_events.py, persistence_audit.py). A tool with a side effect becomes a pending action
--   that the owner approves and that is then executed (persistence_audit.py). When a worker is lost,
--   its lease ends, a scan marks the run as orphaned, and the recovery routes of server.py claim the
--   run and complete what is left of it. All routes ask auth.py for the owner first, and alerts
--   (alerting.py) follow the metrics of the runs. The model itself is called by the retry loop of
--   agent_runtime.py, which goes by the states of the providers (agent_providers.py). An uploaded
--   file is checked and its text taken (my_files.py), its bytes are kept as an original and its text as
--   a document of chunks with vectors (persistence_docs.py). The tools of the agent fetch pages of
--   public hosts only (skill_tools.py).
--
-- Files
--   Base      numbers, lists, JSON values, and tables as lists of rows
--   RunState  run_state.py: stages, transitions, recovery actions
--   Schema    persistence_core.py: the tables as records
--   Exec      what a persistence function does with a database that may fail; rules for what calls
--             keep (Preserves) and for what holds when they return (Returns)
--   Audit     persistence_audit.py: _append_audit_event and verify_audit_chain
--   Actions   persistence_audit.py: create_pending_action, approve_, claim_, complete_ and
--             reject_pending_action
--   Runs      persistence_runs.py: create_run, finish_run, renew_run_lease, mark_orphaned_runs,
--             load_run_recovery, claim_orphaned_run, release_orphaned_run
--   Leases    calls on runs in any order: what leases promise
--   Events    persistence_events.py: tool events, checkpoints, authorization and recovery events
--   Messages  persistence_runs.py: ensure_session, load_message_history, run_message_count,
--             append_new_messages
--   Resume    server.py: run_recovery_route and run_resume_route
--   Approvals server.py: approve_action, reject_action and _execute_approved_action, with the
--             authorization in front (approve_route, reject_route) and without it
--   Chat      server.py: chat_message with its callbacks and _run_lease_heartbeat, and
--             parse_message_history of agent_runtime.py
--   Providers agent_providers.py: health, circuit breaker and fallback; agent_runtime.py: the loop of
--             run_ahmed with its errors
--   Retention persistence_runs.py: retention_preview and cleanup_retention
--   Notes     agent_runtime.py: _reflect_on_tool_failure and _clear_tool_failure_note
--   Search    search_fabric.py: _merge_results
--   Routing   request_routing.py: classify_request
--   Sources   source_of_truth.py: _bounded_extracted_sections; evidence_core.py: _redact_source_line
--   Files     my_files.py: _chunk_content and build_chunks; Files/Content: sanitize_filename,
--             extension_for, validate_file_content, extract_document and what they call
--   Originals persistence_docs.py: create_original_source, read_authorized_original_source,
--             update_original_source_extraction_status and delete_original_source; Originals/View
--             says what a plain store of originals does
--   Documents persistence_docs.py: find_document_by_hash, store_document,
--             update_document_embedding_status, store_document_embeddings and
--             delete_documents_for_source_ids
--   Ingest    my_files.py: ingest_document; Ingest/Route: files_upload of server.py
--   Fetch     skill_tools.py: _fetch_page with the checks of a URL, the pinned connections and the
--             redirects; Fetch/Page: _PageTextParser
--   Config    config.py: bounded integers and the chunk settings
--   Alerts    alerting.py, and persistence_runs.py: persist_runtime_alert_evaluations
--   Auth      auth.py: the throttle and authorize_owner
--
-- Conventions
--   A persistence function takes a world (the database, a clock and the outcomes of the transactions
--   to come) to a result and a world. An outcome says whether the transaction fails and how much time
--   passes before it. A transaction is atomic, and
--   one that fails changes nothing. A sequence of calls of any clients stands for an interleaving of
--   their transactions. A UUID is a number, a timestamp a number of microseconds; numbers have no
--   bound, as Python's integers have none. A request is modelled with no other client between its own
--   transactions. Every recursion is structural. Only the loop that cuts a text takes fuel, one more
--   than the length of the text, which is enough since each chunk starts behind the start of the one
--   before; the loop of run_ahmed counts its rounds, and that of a fetch its redirects, as the source
--   does.
--
-- Parameters
--   Hashing holds SHA-256 and json.dumps; nothing is supposed of them. What json.loads makes of a
--   text is an argument of append_new_messages. The parsed id of a request is an argument of the
--   routes, `none` where it is refused. uuid_text prints a UUID, round4 a rounded quotient.
--   The chat route takes str.strip, the name of the model and, for the history and the ids of a
--   request, what pydantic-ai and uuid make of them. While the model runs, a list of activities
--   says which calls on the database happen, and an outcome how the run ends; respond says how each
--   run of pydantic-ai's agent ends under its usage limits, and how many requests it makes. The
--   order of merged search results and the similarity of titles are given tests. is_space tells
--   which characters str.strip removes from a chunk, and a setting comes with what int makes of its
--   variable.
--   The sections of a source take str.strip, str.splitlines, the size in UTF-8 and the regular
--   expressions of the redaction.
--   classify_request takes the folding of a message and the tests whether a term stands in it.
--   secrets.compare_digest is a parameter of Auth of which nothing is supposed; an Authorization
--   header is given by its parts.
--   Originals and Documents take SHA-256 as a function on bytes: a theorem that needs it to have no
--   collision gives the collision as another outcome. Formats says what Python and the parsers of
--   PDF, DOCX and ZIP make of bytes, also where they raise what the source does not catch, `embed`
--   how the embedding of texts ends, and the ids of uuid4 come with an upload. A fetch takes
--   urllib.parse, ipaddress, DNS, the connections and the responses, which may answer each request
--   otherwise, and the events that HTMLParser makes of a page.
--
-- Not modelled
--   PostgreSQL itself, its schema migrations and its ranking of search results; HTTP; the search
--   clients and the other tools of the agent, with its prompts; the readers of the repository's state;
--   the citations of evidence; the loading of an embedding model; and the evaluation tooling, the
--   benchmarks and the diagnostics, which are scripts around the server.
pub mod Actions
pub mod Alerts
pub mod Approvals
pub mod Audit
pub mod Auth
pub mod Base
pub mod Chat
pub mod Config
pub mod Documents
pub mod Events
pub mod Exec
pub mod Fetch
pub mod Files
pub mod Ingest
pub mod Leases
pub mod Messages
pub mod Notes
pub mod Originals
pub mod Providers
pub mod Resume
pub mod Retention
pub mod Routing
pub mod RunState
pub mod Runs
pub mod Schema
pub mod Search
pub mod Sources
