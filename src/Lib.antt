-- ===== src/Lib.antt =====
-- Awoki (.harness/): a verification library.
--
-- Awoki is a harness around a coding agent. It keeps what an agent's session does in small JSON
-- documents, one per session or run, each read, changed and written under a file lock. This library
-- models the decisions that those documents record, and when the harness may say that work is done.
--
-- The parts and how they interact:
--
--   * .harness/agent_runtime.py (AgentRuntime) notes for one session how each turn of the model ended
--     (`terminal_turn`) and when the user spoke (`user_turn`). A turn that ends badly opens an anomaly
--     that an attributed good turn closes, after the user has spoken again. AgentRuntime holds the
--     operations, AgentRuntime/State the document and what a status shows of it, AgentRuntime/Runs
--     sequences of events as steps, and AgentRuntime/Progress, Counters and Anomalies the proofs.
--   * .harness/claim_graph.py (ClaimGraph) normalizes the structured claims of a run, finds those that
--     contradict each other, and judges them in a gate. ClaimGraph holds `normalize_claim` and the
--     mappings of verifier verdicts to claim statuses, ClaimGraph/Contradictions `contradictions`, and
--     ClaimGraph/Gate `gate`. What the gate judges by is proved in Marked,
--     Judged and Passing of Gate.
--   * .harness/reliability.py (Reliability) is the ledger of a verification run: required checks,
--     structured claims, assessments, a corrective budget, and `finish_run`, which asks the gate of ClaimGraph.
--     Reliability/State holds the document, Texts the cleaning of texts, Records `start_run`,
--     `record_check` and `record_claim`, Assess `record_assessment` and `record_relation` (their words in
--     Words), Events these operations in sequence, as a run's lock orders them, Frozen what a finalized
--     run refuses, Budget `consume_corrective_budget`, Checkpoint
--     `verification_checkpoint` (what it asks of a node in Evidence), and Finish `finish_run` and
--     `aggregate_verdict`, which combines a run with the report of an acceptance run.
--   * .harness/work_ledger.py (WorkLedger) mirrors the TODOs of a session and a working set of
--     references, and notes its user turns and compactions. WorkLedger holds the operations,
--     WorkLedger/State the document, WorkLedger/Ids the identities that the ledger gives to TODOs
--     (`_reconcile_todo_ids`), WorkLedger/Ordered sequences of operations and what they keep, and
--     WorkLedger/Recovery what happens to a document that cannot be read, and how a compaction is
--     attributed.
--   * .harness/continuations.py (Continuations) lets a session wait for a detached job and resumes the
--     model when the job is over. Continuations holds `schedule`, `status`, `release`, `finalize`,
--     `cancel` and `pending`, Continuations/Poll the two locked parts of `poll_due`, Continuations/Claim
--     `claim_due`, Continuations/State the document, Continuations/Texts the cleaning of texts, and
--     Continuations/Events sequences of events, in which the two parts of a poll are two events. How
--     the model is resumed is proved in Claim/Conditions and in Attempts, Lease, Closed and Resume of Events.
--   * .harness/retrieval_limits.py (RetrievalLimits) cuts the documents for a reranker to its budget and
--     leaves a provider alone that answers "too many requests". RetrievalLimits/Bisection holds the
--     binary search, Fitting `fit_rerank_documents`, and Cooldown `error_metadata`, `note_rate_limit`
--     and `check_cooldown` on the table of cooldowns.
--   * .harness/continuity.py (Continuity) keeps the notes of a project in a journal that only grows, and
--     shows a session the saved direction. Continuity/Journal holds `active_records` and
--     `append_record`, Continuity/Lineage `_direction_lineage`, Continuity/Goal `goal_projection`, and
--     Continuity/Projection `goal_projection_lines` and `render_goal_projection`.
--   * .harness/jsonc.py (Jsonc) removes comments and trailing commas from a configuration before it is
--     decoded. Jsonc holds `strip_jsonc` as two scans, Jsonc/Blanks what they leave in place.
--   * Base is what they share: Python's strings, lists and integers over the native numbers, results
--     with errors, and lemmas on membership, distinctness, grouping and decimal numerals.
--
-- How the code is rendered. Functions keep their names. A JSON document is a record with a field for
-- each key that a decision reads; a missing key reads as the default that the code gives. A raised
-- exception is `err` with a constructor for its message. A file lock makes a read, a change and a write
-- one step, so an operation is a function from the document that it reads to its reply and the document
-- that it writes. What another module or the machine supplies is an argument: the time, identities drawn
-- at random, the redaction of texts (.harness/safety.py), the canonical JSON text of a claim's value.
-- Texts are sequences of characters; `strip`, `lower` and `upper` are Python's on ASCII. Integers that
-- the code clamps at 0 are natural numbers after the clamp. The loops of the code
-- modelled here run over finite lists and are structural recursion, but for the binary search of
-- `fit_rerank_documents`, which takes a number of rounds, as many as the document has characters, more
-- than its logarithm; and the two loops of `_direction_lineage`, of which the first takes as many rounds
-- as there are directions and supersedings, since each round takes one note and each superseding adds one
-- at most, and the second as many as there are related notes, since it takes each of them once.
--
-- What is not modelled: the paths of the documents, reports in Markdown, hashes, the capture of a
-- finished run in a project (it is best effort and changes nothing that is modelled), relations
-- embedded in nodes by older documents, and the parts of the repository that are input and output
-- around these documents: code search, the Burp client, backups, the MCP server, the shell tools.
pub mod Base
pub mod AgentRuntime
pub mod ClaimGraph
pub mod Continuations
pub mod Continuity
pub mod Jsonc
pub mod Reliability
pub mod RetrievalLimits
pub mod WorkLedger
