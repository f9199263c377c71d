-- ===== src/Lib.antt =====
-- A verification library for SimpleEvolution, the search program of simpleevo/: a scheduler grows a
-- tree of program versions (nodes) by leasing nodes to agents (proposers), running the experiments
-- they deliver, judging the results by hard gates and waking a supervisor that buys new leases. All
-- state that outlives a process is in one SQLite store, written by class ResearchStore of
-- simpleevo/db/store.py; the library models that writer and the pure judgments around it.
--
-- Parts and files
--   Prelude, Json, Text  numbers, lists as SQL tables, json.dumps values, str operations.
--   Db        the rows, tables, selects, inserts and updates of simpleevo/db/schema.py and of class
--             _Transaction in simpleevo/db/store.py. Db.Exec models statements that may raise.
--   Lease     the complete-research lease: Allocate (allocate_proposer), Conclude (_conclude_on_tx,
--             conclude_lease, deallocate_proposer), Deliver (ingest_lease_conclusion), Adjudicate
--             (record_lease_adjudication, reactivate_lease, graduate_delivered_evidence). Machine
--             is the state machine they implement, Frame, Writes, Minting, Goes, Calls and Keeping
--             prove it of the statements, History of the calls, Outcomes of sequences of calls.
--   Supervisor  the growth gate: Events (wake events, run limits), Requests (integration
--             requests), Review (_apply_epoch_review_on_tx, promote_integration_epoch), Commit
--             (commit_supervisor_decision), and their laws. It buys leases by Lease.Allocate.
--   Frontier  simpleevo/scheduler/frontier.py: Axis (the winners of an axis), Policy (both policies
--             and compute_frontier), and their laws in Winners, Order, Survivors, Ranks, Top and
--             Bounds.
--   Experiments  ingest_experiment_result of simpleevo/db/store.py, which refreshes the frontier
--             and writes a wake event for the growth gate.
--   Gate      simpleevo/adjudicate/gate.py.
--   Queue     class ExecutorQueue of simpleevo/scheduler/queue.py.
--   Proposals  publish_proposals and publish_research_batch of simpleevo/db/store.py.
--   Attempts  Marks (the attempts of simpleevo/db/store.py), Reconcile
--             (simpleevo/scheduler/reconcile.py), and their laws in Offers and Frees.
--   Queries   simpleevo/db/queries.py: Reads (counts and lists), Lineage (node_lineage and
--             burned_lenses), which the seats consult.
--   Seats     simpleevo/scheduler/loop.py: Purchase (_seat_purchases, _seat_leases), Growth (the
--             growth branch of _apply_supervisor_decision). It commits by Supervisor.Commit.
--   Writer    simpleevo/db/lease_writer.py: Lease (the research state of a lease), Ledger.
--   Jobs      simpleevo/jobs/envelope.py.
--   Scheduler  Admission (simpleevo/scheduler/admission.py), and of simpleevo/scheduler/loop.py
--             Deliveries (_resolve_delivery_experiment, _reopen_or_conclude), Resubmit
--             (_resubmit_proposer, _submit_pending_reopens) and Drain (_drain_executor_queue, whose
--             jobs are its result), and their laws; Attempts.Starts counts what they start.
--   Samples   a small store for the runs in the Tests modules.
--
-- How the code is modelled
--   The database is a record of tables, each a list of rows in the order of insertion; ORDER BY is a
--   stable sort, so that rowid breaks ties. An INSERT raises on a used primary key or UNIQUE column
--   and on a foreign key without a row; NOT NULL and CHECK are in the types. A world is a database
--   with the readings of time.time() and the uuid4 values that are still to be drawn; they are
--   arbitrary, and no theorem assumes that clocks advance or that ids are fresh.
--   A method is a function from worlds to outcomes, which return or raise. A transaction that raises
--   restores the database, as sqlite3 documents of rollback, and each runs alone (BEGIN IMMEDIATE,
--   one writer). Keyword arguments are records; a payload whose keys the caller always gives is a
--   record as well. JSON columns hold values, so the encoder is a parameter of Supervisor.Events.
--   A finite metric is the integer multiple of 2^-1074 that its binary64 stands for, and only gets
--   compared; times are numbers that only get compared. A set of node ids is a list without
--   repetitions, in the order of insertion, where the code leaves the order of iteration open.
--   All loops are structural recursion on lists; show (str of a number) takes more fuel than digits.
--
--   The reconciler takes the paths that exist, the probes and the removals of the submitter as
--   parameters; a pass asks each of them once for each work. The envelope takes the json module as
--   a parameter that loads what it dumped, and files as a function from paths. The lineage walk has
--   one round more than there are nodes, which Queries.LineageLaws shows to be enough.
--
-- Not modelled: SQLite, git and file access, processes and HTCondor, random sampling of slots,
-- language models and the text of prompts, reports and plots, the benchmarks and examples, and of
-- the scheduler loop the calls of the submitter and the polling of results. A close of a
-- lease without an outcome belongs to the older contract; it is one of the calls of Lease.History,
-- where the machine gives it no step.
pub mod Prelude
pub mod Json
pub mod Text
pub mod Db
pub mod Samples
pub mod Lease
pub mod Supervisor
pub mod Frontier
pub mod Experiments
pub mod Gate
pub mod Queue
pub mod Proposals
pub mod Attempts
pub mod Queries
pub mod Seats
pub mod Writer
pub mod Jobs
pub mod Scheduler
