-- ===== src/Lib.antt =====
-- ska-sdp-mini-control: the controller that admits observations under a storage budget, processes
-- their raw data, and deletes it after a verdict of quality assurance.
--
-- The parts and their files:
--   Models      sdpctl/models.py: the two state machines and the rows that carry them.
--   Store       sdpctl/store.py: the three tables and every method of class Store. A method is an
--               `Action Db A`, a function of the tables that returns a value or an exception
--               beside the tables it leaves; `tx` gives the old tables back on an exception, as
--               the ROLLBACK of Store.tx does. A `with` block of the source is one `do` block.
--               Records has the rows as the columns that SQLite keeps (Store._obs, Store._run).
--   Files       what the source uses of pathlib, shutil and `open`: a tree of files, as the list
--               of its entries with their sizes. The operating system may refuse any path
--               (`refuses`).
--   Storage     sdpctl/storage.py and sizing.py over a World: the tables, the files and the cache
--               of sizes. The cache is a global of each process, so a command of the operator
--               begins with an empty one and leaves the controller's alone (in_own_process).
--               Deletion has the removal of raw data, Quarantine the move of data into
--               quarantine under a free name.
--   Qa          sdpctl/qa.py: the operator's verdicts over a World.
--   Runners     sdpctl/runners/container.py: the commands for the container engine, their launch
--               (Launch) and the gate that waits until containers are gone; the engine is a
--               parameter, a function of the words of a command, and its `ps` may fail. Labels
--               sets the labels of the commands against the filters. Fake is
--               sdpctl/runners/fake.py, which makes the files itself.
--   Reconcile   sdpctl/reconcile.py: the recovery at the start; the runner's gate is a parameter.
--   Scheduler   sdpctl/scheduler.py: the admission under the threshold, and in its children the
--               worker of an observation (Observe), the worker of a run (Process), the tick and
--               the loop until nothing is left to do (Idle).
--   Config      sdpctl/config.py: byte quantities and the checks of a configuration.
--   Cli         sdpctl/cli.py: the commands of the operator; Reporting is about `status`, and
--               Controller has `run`, which is the recovery and then the scheduler's loop.
--   Protocol    the transactions under what their callers have seen to, as a step relation on the
--               tables, with the invariant of every reachable store. Operators, Recovery,
--               Observing, Processing and Ticking show that the commands of Qa and Storage, the
--               recovery, the workers and the tick are such steps; OneAtATime is about the
--               observations that are under way. Timeline reads the log of events back. In
--               Observing and Processing, Stored and Delivered are about runners that do well, and
--               Faked puts the fake runner under the worker.
--   Prelude     tables, Boolean tests, effects and the rules to reason about them.
--   Tests       a history of one observation, and the theorems at its stores.
--
-- Each transaction takes the write lock of the database when it begins (BEGIN IMMEDIATE), so any
-- interleaving of the controller, its worker tasks and the operator's commands is a sequence of
-- whole transactions: the relation Steps. A coroutine runs alone between two awaits; what happens
-- in an await is a parameter, any change of the world (Interference), of which the theorems ask
-- only that it takes reachable stores to reachable stores; those about runners that do well say
-- what they ask of the runner. A tick has no await that suspends. The commands of other processes
-- are taken to fall into the awaits.
--
-- The routines are structurally recursive, but for four that have fuel: `decimal` in
-- Prelude/Format writes a number n with room for n + 1 digits; the search for a free name in
-- quarantine has one round more than there are files, which is enough, since the names differ; the
-- wait for a container has the 100 rounds of the source; the fake runner's loop over the bytes of
-- its data has one round for each byte, which is enough, since a round writes at least one. The
-- watchdog's loop takes one sleep from a list, each of which is followed by a check of the size,
-- and the scheduler's loop one from its own list.
-- Numbers are unbounded, as Python's are.
--
-- `Ensures P E (m s)` says that `m` returns with `P` or raises with `E`; each branch of the source
-- is one rule of it.
--
-- Not modelled: the cancellation of tasks, the time intervals and the bound of parallel processing
-- in scheduler.py; the time stamps of the rows, which nothing reads; SQLite's files, connections,
-- indexes and the forward migration; the previews, which are drawn by numpy and other libraries,
-- and are a parameter of the worker; the bytes that numpy writes, which are a parameter of the fake
-- runner, and its delays; the parser of the command line, the texts that are printed and YAML;
-- links in paths, and names with `..`; the contents of files; the order in which shutil.rmtree
-- removes a tree: here one that is refused midway has removed the files which the list of the tree
-- names before, and no directory.
pub mod Prelude
pub mod Models
pub mod Files
pub mod Store
pub mod Storage
pub mod Qa
pub mod Runners
pub mod Reconcile
pub mod Scheduler
pub mod Config
pub mod Cli
pub mod Protocol
pub mod Tests
