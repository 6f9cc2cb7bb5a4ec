-- ===== src/Lib.antt =====
-- A verification library for the trading system: its order execution, the health and the lifecycle
-- of its strategies, its evolution loop and its live runtime, as functions and state steps over the
-- program's own records, with the properties that make each part correct.
--
-- The parts and their files
--
-- - Prelude: names passed on, lists, dictionaries in insertion order, integers. Float and Text are
--   the operations of Python's float and str, taken as instances; Fixed is a decimal type on which
--   the models can be run.
-- - Execution.Order, Fills, Retry, Engine: ver9/execution. An order moves through the state machine
--   (OrderStateMachine.transition), fills are merged by FillReconciliationEngine.apply_fill, and
--   ExecutionEngine submits, cancels, replaces and fills orders through an exchange adapter under the
--   retry policy, and writes the journal. A session of the model holds the order, the journal, and
--   how many calls and readings of the clock were made; the adapter answers by the number of the call.
-- - Execution.Simulator, Paper: ver9/execution/simulator. The simulator turns orders into fills with
--   draws of a random generator; the paper session (PaperSession.process_orders) feeds the fills to
--   its account, its counts and its history.
-- - State, with State.Rolling: ver9/state.py. The state file and the calls of the registry are the
--   state; each function loads, changes and saves as the code does (quarantine_strategy,
--   recover_strategy, retire_strategy, apply_rolling_decay, append_cycle).
-- - Lifecycle, with Lifecycle.Basket: ver9/lifecycle.py. Manual transitions by the table, and the
--   automatic promotion by the two basket gates, which the workers of the evolution call.
-- - Basket, with Basket.Selection, Weights and Build: ver9/basket_optimizer.py and ver9/portfolio.py.
--   The rows of a basket are ranked (score_of for candidate_score), chosen (select_rows for the passes of
--   build over consider) and weighted (build_weights); Choice has what build promises. Rows are
--   shared objects in the code, so the selection carries their identities.
-- - Broker, with Broker.Telemetry and Submit: ver9/execution.py. PaperBroker.submit and LiveBroker.submit
--   answer the orders that build_orders makes of the allocations.
-- - Risk: ver9/risk.py and ver9/protections.py.
-- - Daemon, with Daemon.Transitions and Loop: ver9/daemon.py. A cycle takes candidates from the
--   registry, lets Basket allocate, Broker execute and Risk test, changes the health of the strategies
--   in State, and stores the cycle there; run_forever repeats it.
-- - Registry, with Registry.Legacy: ver9/registry.py. Every read migrates the file; upsert_candidate merges.
-- - Evolution: ver9/distributed.py (batches, workers) and ver9/diversity.py (generation quotas).
--   Evolution.Generation (ver9/generation.py and ver9/mutation_spaces.py) makes candidates of a plan,
--   Evolution.Coordinator (DistributedEvolutionCoordinator.run) validates them in a pool of threads,
--   as a step relation that any schedule follows, and allocates those that it promotes.
--   Evolution.Validation (ver9/validation.py) is the validation that a worker calls, and
--   Evolution.Diversity the reports and penalties of ver9/diversity.py.
-- - Runtime.Session, Reconciliation, Recovery, Market, Events: ver9/runtime. The exchange session with
--   its monitor; the comparison of local and exchange state and its cycle; the replay of the event log
--   over a checkpoint; candles from ticks; the event queue and the dispatchers. Runtime.Orchestrator
--   (LiveRuntimeOrchestrator) starts and stops them over the log, Runtime.Supervision has the latency
--   supervision and metrics, and Runtime.Exchanges the adapter state, rate limiter and health.
-- - Evolution.Tuner: ver9/quota_tuner.py, which tunes the quotas of the plan to a regime.
-- - Research.Walkforward: ver9/research/validation/walkforward.py; Research.Portfolio:
--   ver9/research/backtesting/portfolio_engine.py, on a list of bars in place of a data frame;
--   Research.Backtest: engine.py beside it. Research.Search (ver9/research/optimization and
--   experiments) runs the portfolio backtest for every choice of parameters, ranks the results and
--   guards them; Research.Robustness (validation/robustness) judges the ranked candidates;
--   Research.Regime (ver9/research/regime) classifies a row and routes the strategies.
--
-- A method that changes an object is a function from the state before to the state after, with the
-- exception that it raises as a value. What the code calls outside the repository (exchange handlers,
-- clock, random generator, files, statistics) is a parameter. The tests, in a module of each part, run
-- the models on concrete inputs.
--
-- Bounds and fuel
--
-- Counters are naturals: Python's integers have no bound. Recursion is on lists or on a number of
-- rounds that the code fixes (max_attempts, the ten rounds of the weights), but for three loops on
-- fuel: the range of the batches, for which the number of items is enough; the windows of the
-- walk-forward validation, for which two more than the rows of the frame are enough where the step is
-- positive; and the cycles of the daemon, for which max_cycles is enough, and at least 1. The pool of
-- threads is a relation that allows every schedule, whatever the number of threads, and has no fuel.
-- Where the code divides by a number of the caller (a capital, a peak of an equity), the result is an
-- Option, and none is the ZeroDivisionError.
--
-- Not modelled
--
-- Logging, time stamps that are only written, asyncio tasks beside the one that runs;
-- JSON files and their repair, sockets and requests; numerical code over pandas (indicators, features,
-- the strategies, Sharpe ratios), which is left out or a parameter. universe.py, the summaries that
-- are only printed, and the artifacts are not modelled.
pub mod Prelude
pub mod Execution
pub mod State
pub mod Lifecycle
pub mod Basket
pub mod Broker
pub mod Risk
pub mod Daemon
pub mod Registry
pub mod Evolution
pub mod Runtime
pub mod Research
