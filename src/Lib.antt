-- ===== src/Lib.antt =====
-- The Rill Xray agent: its policies, its privileged executor and its configuration transaction.
--
-- The agent proposes changes of an Xray server's routing. An unprivileged runtime makes plans and asks
-- for them; a privileged root executor decides again on its own and changes the managed file in a
-- transaction. This library models, from python/rill_xray_agent:
--   * AutoPolicy (auto_policy.py): the ledger of automatic applies, with cooldowns, an hourly rate and a
--     rollback fuse. State and Load hold the JSON file and its checks, Methods each method.
--   * RootPolicy (root_policy.py): the root's execution policy with its epoch, over an AutoPolicy.
--   * ReleaseCapabilities (release_capabilities.py): the release gate.
--   * RoutePolicy (route_policy.py): Gates is the class, Plan is evaluate_plan_policy.
--   * RootTxn (root_txn.py): World is one work directory with the managed file, the generation and the
--     delivery; Steps and Apply are apply, the rollback and materialize, Recover is the recovery
--     and Scan the read-only report on it.
--   * Ledger (state.py): ClosedLedger, the tombstones of the decisions that are closed.
--   * Runtime (state.py): RuntimeState, the registration of decisions and of the root's results.
--   * Health (health.py): the scan of the transactions and the status of the host.
--   * Operation (operation.py): the recovery of a write-ahead operation, on Ledger and Audit.
--   * RouteContract (route_contract.py): the operations on routing rules and their risk.
--   * RouteExecutor (route_executor.py): Request and Validate check an apply request, Compile is
--     RouteMutationCompiler, Gates and Authorize are apply from a claimed request to the start of its
--     transaction, Run is _run_transaction on RootTxn. Transactions in Gates is what it asks of
--     RootTransaction; Directory fills it with RootTxn, for one work directory.
--   * Audit (audit.py): Redact is redact, Log is AuditLog with its segments, head and intent.
--   * Observer (observer_transition.py): Transition plans the durable writes of a commit and of a recovery.
-- PolicyFile and Json are what the two policy loaders share; Prelude holds the shared helpers.
--
-- A constructor or a method is a function of the object's record, and gives the new record: `none` or
-- `err` stands for an exception. The clock is an argument, `now`.
-- A statement of the transaction is an action on the world that returns, raises or is killed. `life`
-- counts the durable writes that are left: the process is killed before the write that finds it at 0.
-- An atomic write is one step, the copy of the backup two, the first of which leaves a torn file. The
-- faults of the environment variables are a function of the point, and the callbacks are arbitrary
-- functions of the host, which may raise or be killed; only apply_fn writes the managed file. One
-- recovery needs a life of eight writes. Triples is a program logic for these actions; Budget adds the
-- promise that the process lives long enough.
--
-- A commit to the audit log stops at a stage, after any of its durable writes; a line is one write.
-- JSON values are Json's trees, and an edit of a rule replaces it in the list of rules.
--
-- RoutePolicy takes one of the three modes; runtime_service.py lets through no other.
--
-- Parameters: SHA-256 (`digest`, `sha256`, `sha`), `int` of a text (`parse_int`), `json.loads` (`loads`),
-- the length of `json.dumps` (`dumped`, `line_len`), `str.lower`, the pattern of an id in RootTxn and the
-- clock, which stands still during one transaction and its recoveries. Of the package itself
-- `_root_intent_proof` is a parameter (`intent_proof`), which asks the analyzer and the planner, and so
-- are the functions of events.py that Observer uses. Not modelled: the ring of the event journal,
-- the spool of the executor with its claims, torn lines of the audit log, ownership and modes
-- of the files that are written, failures of a policy file's write, the removal of a directory in more
-- than one step, several transactions at once (a file lock excludes them), sockets, command lines and
-- the other modules of the package.
pub mod Prelude
pub mod RouteContract
pub mod RouteExecutor
pub mod Json
pub mod Reason
pub mod PolicyFile
pub mod AutoPolicy
pub mod RootPolicy
pub mod ReleaseCapabilities
pub mod RoutePolicy
pub mod RootTxn
pub mod Ledger
pub mod Runtime
pub mod Health
pub mod Operation
pub mod Audit
pub mod Observer
