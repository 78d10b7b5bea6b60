-- ===== src/Lib.antt =====
-- Verification of the staminads web analytics platform. A browser SDK (sdk/src) collects the
-- pageviews and goals of a session and sends them, again and again and whole, to the server
-- (api/src), which validates them, puts the filters of the workspace on them, buffers them and
-- inserts them into ClickHouse. Members of a workspace, with roles, read and administer it.
--
-- The parts that are modelled, with their files:
-- - Sdk/SessionState: sdk/src/core/session-state.ts. SessionState is the class's fields with its
--   item of sessionStorage; the methods have their names (addPageview is add_pageview). The clock
--   and the focus time are inputs (Instant), JSON a parameter with its round trip. PageNumbers,
--   Invariant and Preservation are about single methods, Lifetime about reachable states,
--   Acceptance about the payload at the server, Navigation about pages, Persistence about
--   sessionStorage.
-- - Sdk/SessionManager: sdk/src/core/session.ts with sdk/src/utils/utm.ts and
--   sdk/src/utils/stm-dimensions.ts (Types). Store is what the keys of storage hold, Page the page's
--   URL and referrer, Clock the readings of Date.now in one call. Stored, Pages and Carried are about
--   what the storage and the next session keep, UrlDimensions about the dimensions of the URL.
-- - Sdk/CrossDomain: sdk/src/core/cross-domain.ts and its use in sdk/src/sdk.ts (start_session). JSON,
--   base64 and URL are the fields of Platform. Encoding is about the alphabets, Links about a link.
-- - Sdk/Sender: sdk/src/transport/sender.ts. The queue is its item of the storage; handleOnline is
--   cut at its awaits (Flushing), and the records entered, sent, expired and trimmed only watch.
--   What fetch, fetchLater and sendBeacon do is an input, and sendSessionBeacon's calls of them are
--   recorded (Beacon). The storage is taken not to fail here.
-- - Sdk/Storage: the classes Storage and TabStorage of sdk/src/storage/storage.ts, whose calls say
--   whether localStorage or sessionStorage throws in them.
-- - Api/Events/PayloadDto: api/src/events/dto/session-payload.dto.ts, the validation of actions.
-- - Api/Events/EventBuffer: api/src/events/event-buffer.service.ts. begin_flush, flush_succeeded and
--   flush_failed are flush cut at its insert; World adds the inserts under way, what is stored and
--   what was added, and Step is the event loop, in which an insert may fail. AddBatch is addBatch
--   with what others do while it waits (Await); Grouping, Ended and Batches are about it.
-- - Api/Filters/Evaluator: api/src/filters/lib/filter-evaluator.ts, evaluateFilters and what it
--   calls; the engine of regular expressions is a parameter.
-- - Api/Filters/Compiler: api/src/filters/lib/filter-compiler.ts. The SET clause is a tree (Sql), its
--   text is made by Print and Escaping. What an expression means to a row is ClickHouse's: the record
--   ClickHouse in Sql has its functions and the laws that are relied on. Cases, Conditions,
--   Descending, Candidates and Refinement are about the value of a dimension, Errors about throwing.
-- - Api/Filters/Backfill: api/src/filters/backfill/backfill.processor.ts. What ClickHouse and the
--   semaphore do in a mutation is an input (Attempt); a call that may throw gives the processor and
--   the error. Dates is about the dates of a task, Partitions about its mutations.
-- - Api/SessionHandler: api/src/events/session-payload.handler.ts. Domain is the test of allowed
--   domains, Skew the correction of the client's clock, Event the events of a payload's actions,
--   Filtering the merge of the filters' results, Handle the cache of workspaces and the handler,
--   whose outcomes are a value (HandleResult): success, an unknown workspace, a time that is no date
--   (toISOString throws, Event/Dates), a flush of the buffer that fails.
--   URL, the store of workspaces and geolocation are parameters.
-- - Api/Assistant/RateLimiter: api/src/assistant/lib/rate-limiter.ts.
-- - Api/Permissions: api/src/common/permissions.ts.
-- - Api/Members: api/src/members/members.service.ts. Each method is what it admits (its queries and
--   guards) followed by what it writes; MembershipTable is the table in ClickHouse, whose documented
--   behaviour is IsReplacing (Api/Members/Laws), and UsersService.findById is a parameter. A DELETE is
--   a mutation that ClickHouse does in the background: its field settle is the table once they are
--   done, and Calls in Owners waits for that between two calls, which the code does not. Guards,
--   Owners, Roles and Race are the proofs.
-- - Api/WorkspaceGuard: api/src/common/guards/workspace.guard.ts, which reads memberships by
--   get_membership of Api/Members, and the route filters.delete of api/src/filters/filters.controller.ts
--   behind it (Deletion), whose service is Api/Filters/Service: delete of
--   api/src/filters/filters.service.ts.
-- - Common: tests, lists, counting, dictionaries, chains of optional results and texts over the
--   native numbers.
--
-- The SDK's payload is what PayloadDto validates; the guard attaches the membership that is the
-- actor of the methods of Api/Members; the handler of sessions makes events of the SDK's payload,
-- puts the filters' results on them and hands them to the buffer; the compiler writes for stored
-- rows what the evaluator decides for events.
--
-- Numbers: JavaScript's numbers are used here as whole numbers below 2^53, so ℕ and ℤ stand for them
-- without a bound; where a division could give a fraction, the comparison is written without it.
-- Times are milliseconds. Recursion is structural everywhere except in `decimal` (Common/Texts), the
-- digits of n, whose fuel n + 1 is more than their number, and in `chunks_from` (Api/Filters/Backfill),
-- whose rounds are one more than the days of the lookback. Texts have their length in characters;
-- toLowerCase changes ASCII letters only.
--
-- Not modelled: the timers and the browser events of sdk/src/sdk.ts and the detection of devices;
-- in the server geolocation, the SQL of analytics, the states of backfill tasks, authentication,
-- invitations, API keys, mail, subscriptions, audit queries, migrations and demo data; the
-- console, which is a user interface. ClickHouse, NestJS, class-validator, RegExp and the browser
-- are outside the repository.
pub mod Common
pub mod Sdk
pub mod Api
