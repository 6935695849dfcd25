-- ===== src/Lib.antt =====
-- A model of the FinanCentury backend: its response cache, its WebSocket hub, its billing periods,
-- its budget summary, its sessions and the requests that change budgets, with the theorems that
-- make them correct.
--
-- The program is a Go service. A handler of internal/handlers answers a dashboard request from the
-- response cache or makes the answer from rows of the database and stores it; each write to a
-- budget invalidates the budget's cached answers and broadcasts to the clients that the hub has
-- under that budget. Each part below is a function of its own state, which the calls pass on; the
-- clock, the scheduler's choices and the rows that a query returns are arguments.
--
-- Prelude: names of the libraries, Boolean tests, lists over the native numbers, integers, and
--   association lists for Go's maps and sets (Prelude/Maps: find, assign, delete; member, add,
--   remove).
-- Cache: internal/cache/cache.go. The struct Cache is the record Cache; `order` is the list of
--   container/list, front first, and an element's address stands for its pointer. get, set_locked,
--   set, sweep, delete_key, invalidate_budget, clear and stats are the methods; remove_element,
--   sweep_expired and evict are the private ones. Cache/Package has the functions on Default, whose
--   nil is `none`; Cache/Keys has Key.String and KeyFor. Cache/Invariant says what ties the map,
--   the list and the index together; Cache/Reference is a plain list in order of last use, and
--   Cache/History runs calls on both. The eviction loop runs on the list's length as fuel: each
--   round removes one element. The mutex is left out, since every call is one critical section. The
--   text of a UUID is a parameter: 36 bytes, another text for another UUID.
-- Hub: internal/ws/hub.go. Each branch of Run and each section under a lock of SubscribeToBudget
--   and UnsubscribeFromBudget is a function; Hub/Steps interleaves them as steps, the write pump
--   included. A send on a closed channel and a second close are the outcome `panic`. json.Marshal
--   is a parameter that may fail. The queue of waiting broadcasts is left out: a broadcast is its
--   handling by Run, at whatever time. Connections, pings and logs are left out.
-- Billing: ComputeBillingPeriodStart, shiftMonths, daysIn and the loop of GetBudgetResume in
--   internal/handlers/summary.go. A date is a year from 0, a month and a day; the theorems ask that
--   the shifts stay after the year 0, as every stored date does. The loop looks at a given number
--   of periods (max_periods), which is the fuel and the bound of the code.
-- Summary: aggregateSummarySpending, and in Summary/Linked assembleLinkedSummaries, in
--   internal/handlers/summary.go. float64 is a parameter with no laws: the sums are stated in the
--   order in which the code adds. A UUID is a number.
-- HttpCache: internal/middleware/cache.go. HttpCache/Directives has the table and its lookup,
--   HttpCache/Tags the ETag and IfNoneMatchHas, HttpCache the middleware, whose `next` is what the
--   rest of the chain answers. The hash of xxhash is a parameter. The loop over the header's items
--   has the header's length as fuel, and each round drops a comma; the 20 places of writeInt's
--   buffer are its fuel. strings.TrimSpace takes off ASCII white space only.
-- Auth: Protected and its session cache in internal/middleware/auth.go, CreateSession, SignOut and
--   RevokeSession in internal/handlers/sessions.go. identify is the check of the header and the
--   token, consult the look into the cache, settle what follows the query; Auth/Sessions is the
--   table user_sessions as a list of rows with the queries that read and change it. JWT, UUID and
--   SHA-256 are parameters. The database may fail: a lookup that fails lets the caller through, a
--   failed update of SignOut is only logged. The lazy update of last_active_at and the branch
--   without a database are left out.
-- Captcha: internal/captcha/captcha.go, internal/captcha/multi.go and
--   internal/middleware/captcha.go: the guard of the public endpoints and its dispatch by platform;
--   verifiers are parameters.
-- CacheAside: internal/redis/cacheaside.go over a cache that is a parameter: a state and the calls
--   that change it.
-- Handlers: internal/handlers, the requests on budgets, categories, expenses, links, invites and
--   collaborators, over the tables of schema.sql. Handlers/Store has the tables as lists of rows
--   and the access queries of validation.go, Handlers/Replies the replies, the calls on the caches
--   and the hub as a list of effects, and the early returns as a monad, Handlers/Amounts float64
--   with NaN and the infinities, Handlers/Targets the cache of link targets of links.go and the
--   fan-outs of helpers.go and validation.go. Handlers/Expenses and Handlers/Pages are expenses.go,
--   Handlers/Categories categories.go, Handlers/Templates, Handlers/Budgets and
--   Handlers/BudgetChanges budgets.go, Handlers/Links links.go, Handlers/Members invites.go and
--   collaborators.go; Handlers/Requests is their dispatch as internal/routes/routes.go has it. Each
--   statement may fail: `answers n` of the environment says whether the n-th does. A request is one
--   step, so the races between its statements are left out; a foreign key's cascade is part of the
--   DELETE. An id is a primary key, so a condition on it is met by one row. Sums, products and
--   quotients of amounts are rounded to the nearest float64, as Go computes them without fused
--   operations; what a NUMERIC(18,2) column makes of an amount and what SUM reads as are the
--   environment's. A row of an answer may be lost on the way, which the code does not always
--   notice. `json` is the call of c.JSON, and `http_status` what the client gets of it:
--   encoding/json refuses NaN and infinities. Parsing of dates, strconv.Atoi and the package
--   unicode are parameters. Handlers/Ceiling has the ceiling on allocations as the float64 tests
--   hold it, with Handlers/Amounts/Rounding for the error of a sum, Handlers/Limits the limits,
--   Handlers/Coherence the cache of link targets against the table of links, Handlers/Dependents
--   what the deletion of a category and a NaN do.
--
-- Not modelled: sign-in, the deletion of an account (DeleteAccount, whose cascade removes links and
-- leaves the cache of link targets as it is), the migration of a guest's budgets, the listings that
-- only read (budgets, categories, invites, collaborators, linkable budgets), the SQL of the
-- dashboard's loaders, the captcha and attestation services, the Redis client, configuration and
-- start-up. The services and start-up are I/O or calls of libraries.
pub mod Prelude
pub mod Cache
pub mod Hub
pub mod Billing
pub mod Summary
pub mod HttpCache
pub mod Auth
pub mod CacheAside
pub mod Captcha
pub mod Handlers
