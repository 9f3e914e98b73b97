-- ===== src/Lib.antt =====
-- The core of isutools. Package internal/runctl is the run controller: the state machine of one
-- measured run, the boundaries that are taken over all collectors when it begins and ends, and the
-- background work that turns the frozen data into a snapshot. Packages internal/generation,
-- internal/agg, internal/requestwork and counters hold the data that is measured.
--
-- Packages sqlstats and sqlrows do so for SQL, internal/profilemodel checks the sums of profiles.
--
-- Parts and how they interact. StartRun (internal/runctl/start.go) gives a run the next epoch and a
-- slot, runs the two phases (internal/runctl/phase.go) over the registered collectors, judges how
-- far apart in time they were (internal/runctl/window.go), and commits the result behind the epoch
-- fence (internal/runctl/controller.go). FinishRun (internal/runctl/finish.go) does the same at the
-- end, and leaves draining, collecting and publishing to a worker. AbortRun
-- (internal/runctl/abort.go) advances the epoch, which fences every goroutine of the run, joins
-- them for a bounded time and settles the run. Sweep expires what nobody asks for.
--
-- A collector's data is kept in generations, so that a boundary is a swap: internal/generation
-- pins work to the generation it began in, and the counters (counters) are a collector whose
-- boundary swaps a table out. A table of internal/agg holds latencies by key within a budget of
-- keys. internal/requestwork attributes the wall time of one request to SQL and outbound calls.
-- sqlstats files statements, normalized and with their literals masked, in tables of internal/agg
-- under the manager of internal/generation. sqlrows is a collector that reads the database's own
-- cumulative counters at both boundaries and publishes their difference where that means something.
--
-- Files and sources:
--   Runctl/Types       internal/runctl/types.go, errors.go (states, verdicts, codes, records)
--   Runctl/Window      internal/runctl/window.go: computeWindow, judgeSpread, applySpread
--   Runctl/Budget      internal/runctl/budget.go: withDefaults, Validate
--   Runctl/Phase       internal/runctl/phase.go, collector.go, safecall.go
--   Runctl/Records     internal/runctl/types.go and controller.go: results, runSlot
--   Runctl/Controller  internal/runctl/controller.go: commit, publish, addSlotLocked, nonces,
--                      Status, SnapshotOf, Await, AckBy, Sweep, registration
--   Runctl/Release     internal/runctl/start.go: the release of handles
--   Runctl/Start       internal/runctl/start.go: planStartLocked, beginRun and its workers
--   Runctl/Finish      internal/runctl/finish.go: FinishRun, freeze; Finish/Worker: finishWorker
--   Runctl/Abort       internal/runctl/abort.go: AbortRun, reap
--   Runctl/World       every critical section of the package as a step between goroutines
--   Runctl/World/Slots, Effects, Invariant, Steps, Others, Lifecycle, Sweeps   what each step does
--                      to the slots, and the invariant; Safety, Fencing, Answers, Calm, Liveness
--                      speak of reachable controllers
--   Window/Bounds, Window/Spread, Budget/Hierarchy, Phase/Contract, Single, Baseline,
--   Controller/Retention, Controller/Sweeping, Controller/Queries, Abort/Handles, Finish/Verdict
--                      speak of single operations of the file whose name they extend
--   Generation         internal/generation/generation.go: Manager, Lease, Sealed; Steps: what
--                      goroutines do, in any order; Leases, Invariant, Freezing
--   Agg                internal/agg/agg.go: Table, p95; Lookup: rows by key; Account: the account
--                      of the observations, which Refinement compares the table with; Percentile
--   Counters           counters/counters.go; Collector: counters/generation.go; Conservation: uses
--                      of a registry; Store: uses of a collector; Boundaries, Lifecycle;
--                      Run: the counters as a collector of the run controller
--   Requestwork        internal/requestwork/requestwork.go: Counter, Close; Requests: the calls of
--                      a request; Ticks, Sweep, Edges, Wall: the sweep against a count of moments
--   Sqlstats           sqlstats/normalize.go: scrubSQL, normalization and its cache; Turns: one
--                      round of the loop; Total, Clean, Literals, Cached; Store: sqlstats/store.go;
--                      Rotation: its events and a ledger of them; Report
--   Sqlrows            sqlrows/sample.go and delta.go: rows, clocks, subtraction of readings;
--                      Section: evaluateInterval; Building: buildSection, sqlrows/section.go;
--                      Interval, Verdict: an interval's rows; Steps: one step of the loop;
--                      Outcome, Overflow, Targets: the section
--   Profile            internal/profilemodel/checked.go: checked arithmetic; Budget;
--                      Summary, Totals: totals and node tables of
--                      internal/pprofanalyze/aggregate.go, and the
--                      numbers that internal/profilemodel/validate.go accepts
--   the modules named Examples   concrete runs
--
-- How state and operations correspond. A function of the package is a function on a Controller
-- record that returns the new one. A pointer to a slot is the slot's epoch, which names one slot at
-- most; a write through the pointer is a write at that epoch, so writes to a slot that was evicted
-- are lost here, where the source still has the record but no path from the controller to it. A
-- channel that is closed and replaced is a number that grows. Health reports, termination events
-- and handles whose release was asked for are logs, oldest first. Slices that the source copies
-- are values. A generic value of a collector is a number.
--
-- In World, a step is one section under the mutex (or, for a release or a registration, one run of
-- a cleanup or one call), with any goroutine's step next; a duty says which goroutine still has
-- to speak for a run. The clock, the results of collectors, the deadlines of contexts and the
-- identifiers are arguments of each step, so theorems hold for all of them. StartRun holds startMu
-- from its plan to the commit of its opening boundary, and a starter says where it has come: it has
-- planned, has aborted or acknowledged the run that the plan names, or has opened its run. The steps
-- of others come in between, an AbortRun of that run among them. An error of AckBy is ignored and
-- one of AbortRun ends the start, as in the source. A run is live while it is starting, started,
-- finishing or finished; a run that is being aborted is not, and one may still be kept when the next run opens.
-- Identifiers are random in the source; here the one of a plan names the slot it was planned for.
--
-- In the other packages a method under a mutex is a function of the state. The normalization of
-- sqlstats holds no lock: what other callers do to its cache between its operations is an argument. Goroutines are sequences
-- of such calls in any order. Strings are lists of bytes, Go's maps association lists with each key
-- once. A generation or lease that several goroutines hold is a place in a store. sort.Slice is an
-- insertion sort where its order is strict, and an argument where it leaves ties open. The factory
-- and the snapshot function of a generation's values, strings.TrimSpace, the contexts and the clock
-- are arguments. So are the regular expressions of the SQL normalization, strings.Fields, and the
-- classification of statements; a position in a text is what is left of it. The reasons and notes of
-- sqlrows are kept by their parts, without their wording.
--
-- Numbers. A time is nanoseconds since Go's zero time and a difference of times is cut at the
-- longest duration, as Sub cuts it; times are taken not to run backwards. Budgets are int64 with
-- wrapping sums, and so are the sums and counts of the other packages, held as bit patterns of 64
-- bits; the percentile reads counts below 2^56. Epochs and generations are unbounded: a uint64 of
-- them is not used up. Retention is a loop on fuel, the number of slots, of which each round removes
-- one; scrubSQL is a loop on fuel, the length of the statement, of which each round takes a byte or
-- more; bits.Len64 takes 64 halvings, which are enough for a word; the other loops are structural.
--
-- Not modelled: the initialize guard, random identifiers, texts of errors and messages, the ticker
-- of the watchdog (each tick is a sweep step), the goroutine that calls the lifecycle observer,
-- values in contexts, and the other packages: adapters, HTTP
-- instrumentation, SQL drivers, the queries of sqlrows and the grouping of its notes, probes, web.
pub mod Prelude
pub mod Runctl
pub mod Requestwork
pub mod Agg
pub mod Generation
pub mod Counters
pub mod Sqlstats
pub mod Sqlrows
pub mod Profile
