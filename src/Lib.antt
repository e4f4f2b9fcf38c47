-- ===== src/Lib.antt =====
-- Lexicode: the kernel that decides which agent runs start, and when a chain of triggered runs stops.
--
-- A trigger matches an event, or a minute of its schedule, and its conditions hold
-- (internal/service/triggers, internal/module/cron); the loop guard (internal/kernel/guard) lets the
-- firing through or ends it; an action enqueues a run; the admission pass of the scheduler
-- (internal/kernel/sched) takes queued runs into container slots; every change of a run's state goes
-- through one transition function, whose write is guarded by the state that was read. All of them work
-- on the tables of internal/kernel/store.
--
-- Files, and the code that they follow:
--   Prelude       names passed on from the libraries, Boolean tests, list searches that read as SQL
--                 statements, and the result of a fallible call
--   Domain        internal/domain: RunState (states, categories), Rows (the rows of the tables),
--                 Payload (decoded JSON), Words (the reasons in words that the kernel writes)
--   Store         internal/kernel/store: Db (tables, searches by key), Runs (runs.go, runstate.go),
--                 Budget (budget.go), Queries (the searches of admission and of the guard)
--   Sched         internal/kernel/sched: Machine and States (states.go: legalTransitions, transition,
--                 SetRunState), Admission (admission.go: admitPass and what it calls), Create and Enqueue
--                 (scheduler.go: EnqueueLoopStopped, Enqueue), Stop (supervisor.go: StopRun, TakeoverRun;
--                 scheduler.go: CancelTicketRuns), Supervise (supervisor.go: the exits of supervise,
--                 finish), Clock (supervisor.go: the wall clock), Reconcile (reconcile.go), World and
--                 Kernel (what the scheduler acts on); Board (the board of run states, an abstract view)
--                 and Steps (the operations as a step relation)
--   Guard         internal/kernel/guard: guard.go, and of layers.go SkipToken (hasSkipToken, reviewIDOf),
--                 Chain (chainDepth), Budget (checkBudget), Layers (Evaluate and its layers)
--   Triggers      internal/service/triggers: Conditions (conditions.go: condition trees), Match (match.go:
--                 matchStage), Template (interp.go: interpolate), Firing, Actions and Engine (engine.go:
--                 writeFiring, runActions, process, fire)
--   Cron          internal/module/cron: Expr (expr.go: Parse, Matches), Source (source.go: scan)
--   Mentions      internal/service/mentionparse: Parse, RewriteWikiLabels, MaskTokens
--   Proxy         internal/module/docker/proxy.go: Hosts (newHostMatcher, match), Registry (Register,
--                 Unregister, authenticate), Serve (ServeHTTP up to the tunnel, logDecision)
--   Bus           internal/kernel/bus/bus.go: Publish, Emit, dispatch, Start; Queues (the queues of dispatch,
--                 consume, report, Stop); Steps
--                 (how publishers, subscribers and the process interleave), Balance (with Even), Handed and Outcome (where each
--                 delivery is, whom a tracker is for, when an event is done)
--   Tickets       internal/service/tickets/move.go: Position (placeTicket; internal/domain/position.go), Desk
--                 (what the service acts on), Move (Move, maybeAutoStart), Archive (Archive, Unarchive)
--   Tests         the theorems applied to concrete worlds
--
-- How the state corresponds:
--   - Db is the database: a list of rows for each table. SQLite is not
--     modelled. The field `outage` says which statements fail with an error other than "no rows", and an
--     UPDATE is a map over the rows that its WHERE clause accepts.
--   - World adds to it the audit log, the events published and the runs handed to a supervisor. Kernel
--     adds to a World the supervisors by the key of their run, the proxy tokens revoked, the wake-ups of
--     the admission loop, and the tables of elicitations, items, outputs, stream entries and firings.
--   - A goroutine of a supervisor is cut at the points where it waits: each operation of Sched.Steps is
--     the code from one wait to the next, with the answer waited for as an argument.
--   - Identifiers, names and subject keys are numbers, since the kernel only compares them; the empty
--     string is `blank`. Texts that the code looks into are lists of code points.
--   - A time is a number of milliseconds, as the fixed width texts order. The clock stands still
--     during one call, and the day of the ledger is an argument.
--   - Other writers: `transition` takes a list of functions on the database, one for each round of its
--     loop, applied between the read and the guarded write. The loop is recursion on that list: with the
--     list used up no race is lost any more.
--   - The walk of chainDepth is recursion on the hops that are left, 64 at the start as in the code.
--   - Numbers are unbounded: the counters, costs and depths of the code are int64 values that stay far
--     below its range. The one number that a user can bring to its end, the step of a cron field, is kept
--     to 64 bits: a sum past them is the answer `panics`. Configured numbers below zero, which validation refuses, are not modelled.
--   - `path.Match` of the Go library is an argument of the conditions, which answers nothing for a
--     malformed pattern, and `strconv.Atoi` one of the cron parser. A bitset of the cron parser is the
--     function that tells its bits; its stepping loop has fuel for one round more than the upper bound,
--     and the loop of a template for one round more than the template has characters.
--     The numbers of payloads and conditions are natural numbers.
--   - The calendar of the Go library is a parameter of the cron source, and the search back from the time
--     `until` for a matching minute has `until + 1` rounds of fuel, each of which goes back a minute; the
--     loop over the pieces of a body has the length of the body as fuel.
--   - What the prompt of a run is made of, the subject key of a ticket, the subject keys of an event, whether
--     a session can be attached to again and what could be preserved of the work of a run are
--     arguments of the operations that use them.
--   - The goroutines of the bus are cut where they meet: one step is a publisher that comes to one queue, a
--     subscriber that takes an item, its handler that returns, or its report. The queues of all
--     subscriptions are one list of entries with the name of their subscription, of which the first with a
--     name is the head of its queue. Of a handler only its answer is modelled: an event that it publishes
--     itself is a step of a publisher, and nothing is said of whether a handler ever returns, which it does
--     not while it waits for room in its own full queue. The steps may come in more orders
--     than in the code: a boot recovery goes on while its last event waits for room in a queue, and after a
--     publisher of it has given up.
--   - The maps of the proxy are functions. `unicode.ToLower` and `net.SplitHostPort` of the Go library
--     are arguments, and a request carries its credential as encoding/base64 decodes it.
--   - A position of a card is the bit pattern of a float64 that is not negative, which is ordered as its value
--     is; the operations of float64 are an argument.
--
-- Not modelled: the snapshots that a run takes at launch, the calls of sandboxes, agent runtimes and git,
-- steering and the transcript of a run, the ticket and pull request of a finished run, the assembly of
-- prompts, the validation and backtest of rules, the HTTP services, the modules for GitHub, Docker (but
-- for its proxy) and the agent runtime, and the web client. They are texts, forms over single tables, or
-- calls of programs outside the repository.
pub mod Prelude
pub mod Domain
pub mod Store
pub mod Sched
pub mod Guard
pub mod Mentions
pub mod Proxy
pub mod Bus
pub mod Tickets
pub mod Triggers
pub mod Cron
pub mod Tests
