-- ===== src/Lib.antt =====
-- The control plane of the runner dashboard.
--
-- The control plane keeps a table of runner specs, each with a desired and an actual state, and a
-- table of operations that somebody asked for. A reconciler that holds a lease looks at every spec
-- in turn, decides the next step for it, calls an executor and writes what it saw. This library
-- models that core as functions on values: a table is a list of records in the order of insertion,
-- an SQL statement is a function on it, a raised exception is a constructor of the result type.
-- Identifiers, database keys and moments are numbers, since the code only compares them.
--
-- The parts, and the code that each one models:
--
-- States (dashboard/control/states.py): the table TRANSITIONS as `transitions`, the named sets,
-- and `can`, `check`, `next_states`, `aborts_a_job`, `verb_target`, `allows`, in Names, Edges and
-- Asking. States/Machine is about paths through the machine, States/Verbs about what may be asked
-- for, States/Values holds the enumeration of the states and the verbs. Python's None as a state
-- is `none`.
--
-- Reconciler (dashboard/control/reconciler.py). Reconciler/Decide is the function `decide`, with
-- Safety for what its step never does and Convergence for where repeating it leads.
-- Reconciler/Steps holds what the methods `_do_*` write to the state of a spec,
-- `_close_if_fulfilled` as `closing`, and one pass over an undisturbed runner: every call of the
-- executor succeeds, no hold, turn, preflight or worker check stops a step, and each move is put
-- to the machine. The whole of `_step` is Control/Step. Reconciler/Lease is the row of the lease,
-- Reconciler/Capacity is `_converge_capacity`.
--
-- Control (dashboard/control/reconciler.py, and the requests of dashboard/control/service.py) puts
-- the parts together: the methods of `Reconciler` and of `RunnerService` as actions on one `World`
-- that holds the specs, the operations, the report, the audit of requests and, for the proofs, two
-- lists that the code does not keep: the executor's calls, and the writes that changed a runner's
-- state, found by comparing the rows before and after each statement. An action returns its result
-- or the exception with the world as it was written so far (World). Stores has the calls of the
-- two stores, Outside what the code calls and does not hold: the Protocol `Executor` and its
-- optional methods, the settings of a runner, the inventory, the clock, the minting of
-- identifiers; each is an action too, so that it may stand for what other processes write
-- meanwhile. Moves has `_move`, `_fail` and what the steps share, Steps and Ending the methods
-- `_do_*`, Observe `_do_observe` and `_record_forge`, Turns `_recreate_turn`, `_cache_turn` and
-- the test of `_queue_cache_budget`, Locks the four locks of `_step`, Step the rest of it, Pass
-- `_sweep`, `_converge_capacity` and the loops of `pass_once`, Request `act`, `_act`, `_repeat`
-- and `set_desired`. The text of a message is a number that the outside makes, since the code
-- reads none; the columns that a replacement copies are one number; a JSON column is read through
-- Outside.
--
-- Control/Evolves says how a world may change, and Rules how an action keeps that, by one rule for
-- each way to put actions together; Leaves, Transitions and Fences are about the writes, Keeping
-- about the methods. Lawful is what is asked of the outside: that it writes no row except through
-- the callback it was given or as every writer of the state does: rows are kept, versions do not
-- go back, a state changes with its version but for idle and busy, and what it adds to the list of
-- writes goes along the edges of the machine. Runs is about passes and requests in any order,
-- Alone about when a recreate begins, Answers and Lost about the answers of a request.
--
-- Operations (dashboard/control/operations.py): `OperationStore` method by method, where `open` is
-- `open_op`, with a parameter for what other callers do between its look and its INSERT. `_close`
-- is one step: a close by another process between its SELECT and its UPDATE is not modelled.
-- Whether the audit of `_audit_close` takes a row is a parameter, since a write that fails is
-- swallowed. Its parts are Table, Open, Methods, Reports and Actions; Rows, Outcomes, Keys,
-- Deadlines and Audit hold the proofs.
--
-- Specs (dashboard/store/specs.py): `SpecStore` with its optimistic versions, in Specs/Versions.
--
-- Cpusets (dashboard/control/cpusets.py): `window`, `parse` and `allocate` on texts as lists of
-- character codes; Text has the string functions that they use, for ASCII.
--
-- JobEvents (dashboard/control/job_events.py): the comparisons of two events and `apply` on the
-- tables that it writes, with its two readings of the clock as arguments, in Event, Order, Tables
-- and Apply; Once, Pages and Fences hold the proofs.
--
-- Placement (dashboard/control/placement.py, and what it reads of hardware.py): `choose`, whose
-- loop body is `why_not`, in two parts: `misfit` for the tests before those on room, `no_room` for
-- the rest, in Suits and Demand, and Choose for the whole. Room is about one worker, Choice about
-- the chosen one. Python's float() of a text is the argument `float_of`.
--
-- Retry (dashboard/control/retry.py): `call` under a policy, the callee being a function from the
-- number of the attempt to its answer, and the cache of `CachedForges.records`.
--
-- Prelude has Boolean tests, lists, finite types and sorting. Tests holds instances of the
-- theorems.
--
-- How the parts meet: Control calls `decide`, `closing`, the machine, the two stores and the
-- capacity of the other modules; Reconciler/Decide and Reconciler/Steps stand on States; the
-- closing of an operation reads `allows` of States; Capacity reads the specs of Specs; Operations
-- records the phases of Reconciler/Decide in its progress.
--
-- Bounds and fuel: `allows` calls itself on the first part of a composite verb; its model has
-- depth two, since no part of a composite is one. The loop of `call` runs over range(1, retries +
-- 2) by structural recursion. The numbers of passes, five, four and eleven, are part of the
-- statements. No other definition has fuel.
--
-- Not modelled: threads, sockets, files, the SQL engine, JSON, the executors and the forges; the
-- lock file and the thread that renews the lease, whose loss is an answer of the outside; fleet
-- limits, and the requests of the service other than the scheduling of a verb and `set_desired`;
-- the checks of `validate` on a job event's JSON; the web application, the agent on the workers,
-- images and installers.
mod Prelude
mod Tests
pub mod Text
pub mod Cpusets
pub mod Retry
pub mod States
pub mod Reconciler
pub mod Operations
pub mod Specs
pub mod JobEvents
pub mod Placement
pub mod Control
