-- ===== src/Lib.antt =====
-- Cathedral compute: a subnet that admits miners whose confidential hardware is attested, gives
-- them work whose result a validator can check, and credits what was checked.
--
-- The parts that are modelled, and how they meet:
--
-- * Sat/ is cathedral/lanes/sat.py and cathedral/lanes/sat_types.py. Instance.antt is
--   `SatInstance` and `validate_sat_instance`, WorkItem.antt `SatWorkItem`, `SatCertificate`, the
--   challenge id, the units and `validate_sat_work_item`, Canonical.antt the planted instances,
--   Solver.antt `solve_sat`, Certificate.antt the check of an assignment, and Lane.antt the class
--   `SatLane`: its fields are a record, and `enqueue`, `dispatch`, `verify` and `score` are
--   functions on it. Lane/Reach.antt makes the calls into steps and follows all sequences of them.
-- * Lifecycle.antt and Lifecycle/ are cathedral/lifecycle.py: the transition tables, the snapshot
--   with its checks and `eligible_at`, `retry_delay_seconds`, and `SingleFlightReattestor`, whose
--   callers, timeouts and worker threads are the steps of Lifecycle/Flights/Interleavings.antt;
--   Lifecycle/Flights/Cancellation.antt follows one task over them. `_invoke` holds no lock, so its
--   second test of the event and the result that the executor sets are two steps.
-- * Assurance.antt and Assurance/ are cathedral/assurance.py: claims, the policies that name the
--   claims which a gate needs, and their documents.
-- * Binding.antt and Binding/ are the report data and channel bindings of cathedral/common.py, and
--   `_channel_binding_from_canonical` of cathedral/replay.py.
-- * Quote/Tdx.antt is cathedral/verify/tdx_quote.py and Quote/Snp.antt is cathedral/verify/snp.py,
--   which parses a report, compares it with the data of Binding and with a policy, and attaches
--   the claims of Assurance.
-- * Ledger.antt and Ledger/ are the tables of cathedral/ledger.py and the methods on epochs,
--   challenges, attestations, scores, reports and publication. A table is a list of rows, the newest
--   first; a method is a function from the tables to a result with the new tables, so that a
--   transaction that raises leaves nothing behind. Audience.antt has the checks that the ledger takes
--   from cathedral/score_audience.py, cathedral/challenge.py and cathedral/launch_limits.py.
--   Scores.antt and Completion.antt are `complete_epoch`: work units are whole numbers, the score of
--   a hotkey is a fraction, and the canonical JSON of a report, SHA-256, timestamps and the answer of
--   the poster are parameters.
--   Jobs.antt and Jobs/ are the customer jobs: `enqueue_customer_job`, `claim_customer_job` with its
--   two sweeps, the items that attempts dispatch, `resolve_challenge` with a lease, and
--   `prune_customer_jobs`.
--   Steps.antt makes each method that returns a step. Below it, Effects.antt, Freezing.antt and
--   Work.antt say what the methods do to the tables, Order.antt, Tallies.antt and Invariant.antt have
--   the invariant of the tables, Phase.antt the labelled machine of the epochs, Reports.antt and
--   Posting.antt the frozen reports, Completing.antt and Retrying.antt when the methods return and
--   when they raise, Records.antt and Evidence.antt the rows of challenges and attestations, and
--   Queue.antt the rows of the jobs.
-- * Base/ has what they share: signed integers, dicts, results that may be exceptions, JSON text,
--   byte strings with slices and base64.
--
-- Conventions. An exception is the `err` of a `Result`, with a constructor for each message. A
-- check that the type of a value makes true (`isinstance`) is left out; where the program reads
-- values of any type, as in the claims, the fields are JSON values. Hashes, the HMAC, the random
-- generator, `datetime.fromisoformat`, the clock, and what the snpguest tool answers are
-- parameters; a theorem that needs a hash not to collide says so of the two inputs in question.
-- Python's integers are exact, so numbers are unbounded here as well; the work units of the SAT
-- lane are small whole numbers, which its floats hold exactly.
--
-- Loops. The solver's two loops that do not run over a list take fuel, one for the search and one
-- for each propagation: `n_vars + 1` is enough, since every round assigns a new variable, and
-- Sat/Solver/Decision.antt proves it. All other loops run over lists.
--
-- Not modelled: the ledger's assurance receipts, lifecycle snapshots, work
-- artifacts, exports and migrations; the enrollment store, receipts, key release and the policy
-- registry, which are state machines over SQLite tables and signed documents; the weights of
-- cathedral/economics.py, which are floats; and sockets, subprocesses, the command line and the
-- HTTP handlers, which are glue.
pub mod Assurance
pub mod Base
pub mod Binding
pub mod Ledger
pub mod Lifecycle
pub mod Quote
pub mod Sat
