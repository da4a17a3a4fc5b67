-- ===== src/Lib.antt =====
-- iconify-cli: the local mirror of the Iconify corpus, its index build and its queries.
--
-- The program answers questions about icon sets from a SQLite mirror. internal/iconindex fills the
-- mirror from the Iconify API and reads it; the commands of internal/cli print what it returns. All
-- requests go through internal/client, which retries them within the budgets of internal/platform and
-- paces them by the limiter of internal/cliutil; internal/store keeps what the learn loop has seen and
-- been told; the tools of internal/mcp pass what comes back through internal/mcp/bound, which
-- keeps it within a size and hands out cursors for the rest.
--
-- Parts and files:
--   Base               shared names, integers, strings as lists of code points, sorting, association
--                      lists
--   Iconindex.Collection   ParseCollection of internal/iconindex/index.go, one set's icon rows:
--     Index            rows looked up by name, and the index that `add` keeps
--     Spec, Parse      the description of a row by the payload; the rows in order
--     Distinct         no name twice, one prefix
--   Iconindex.Sets     ParseSets and coerceHeight of internal/iconindex/index.go
--   Iconindex.Db       the tables of internal/store/iconify_migrations.go, and transactions
--   Iconindex.Replace  upsertSets, replaceIcons, namesInTx, storedLastModified of index.go:
--     Effect, Atomic   what a transaction does when nothing fails, and that it does all or nothing
--     Success, Mirror, Frame, Sets   no broken key, the invariant, what each set keeps
--   Iconindex.Build    Build of index.go, from the API's answers to the result:
--     Loop, Order      the loop over the fetched sets, and the order in which they arrive
--     Counts, Totals, Unchanged, Report   how often a set is in a list, which are skipped, the result
--     Content, Finished, Icons, Stamps, Repeat   the tables, a second build
--   Iconindex.Query    Resolve, CrossSet, SetNames, DiffNames, UnindexedPrefixes of
--                      internal/iconindex/query.go: Diff, Swap, Resolved
--   Iconindex.Snapshot LatestSnapshot of internal/iconindex/query.go
--   Iconindex.Coverage CoverageBySet, SetsMeta and FTSQuery of internal/iconindex/query.go:
--                      Rank, Hits, Count, Listed, Rows
--   Mcp.Bound          internal/mcp/bound/bound.go:
--     Json             the values it builds, and encoding/json and base64 as a parameter
--     Cursor           the cursors of pages, and their round trip (RoundTrip)
--     Preview          previewString and previewEnvelope: Runes, Whole, Rounds
--     Fit              fitJSONItems, the list and object envelopes: Longest
--     Pages            fitJSONPageItems and boundedPageListEnvelope: Progress, Walk
--     Respond          EndpointPageResponse, JSON, Text, and their size (Limits)
--     Metadata         WithMetadata
--   Client.Path, Client.Request   rejectUnresolvedPathParams and doInternal of
--                      internal/client/client.go: Attempts, Budget, Writes
--   Platform.RateLimit Validate, RetryAfterDelay and CanRetryRequest of
--                      internal/platform/ratelimit.go: Delay
--   Cliutil.Limiter, Cliutil.Wait   AdaptiveLimiter, RetryAfter and Backoff of
--                      internal/cliutil/ratelimit.go: Range
--   Cliutil.Fanout     FanoutRun of internal/cliutil/fanout.go, as a step relation: Complete, Ending
--   Store.Db, Store.Ends, Store.Quiet   the tables of the learn loop, calls that may fail, and how
--                      chains end, also where no call fails
--   Store.Candidates   internal/store/candidates.go:
--     Rows, Effects, Writes, Changes, Updates, Runs   what each statement and call changes
--     Machine, Refinement   the state machine of a signature, and that the calls follow it
--     Derive, Confirm  what a sighting answers; a confirmation with its guidance
--   Store.Playbooks    internal/store/playbooks.go: Content, Accepts, Upsert
--   Cli.Diff           the diff of internal/cli/diff.go: Fresh
--   Examples           runs of the functions, and the theorems at concrete inputs (Bound, Requests,
--                      Store, Fanout)
--
-- State and operations: a function keeps its Go name in snake case (replaceIcons is replace_icons),
-- a closure or the body of a loop has a name of its own, and a helper's comment quotes the statement
-- it stands for. The tables are the lists of the record `Db`. Every call of database/sql takes one
-- entry of a list of faults, which decides whether it fails; past the end of the list none does. A
-- statement also fails when it breaks a primary key. An error undoes the transaction, as the
-- deferred Rollback does. In the client, what an attempt meets (the reply, the clock, an
-- interruption) is a function from its number to a `Round`, and a `Trace` records requests, back-off
-- sleeps, the waits in the two limiters, the calls of the limiter and the clearing of the cache. In
-- the store of the learn loop a failed call leaves what came before it, unless a transaction undoes
-- it; the id of a new row is the one that SQLite gives. The goroutines of FanoutRun share a `State`,
-- and each of their actions on it is a step.
--
-- Bounds: every loop is over a list or counts down, and is structural. The loop of doInternal counts
-- the attempts that are left, one more than the retries. The only fuel is that of `follow`, a caller
-- that follows cursors; one more than the number of items is enough. Strings are compared by code
-- points, which orders them as Go orders their UTF-8 bytes; internal/mcp/bound has lists of bytes.
-- Icon totals and heights are the integers of the API, timestamps are natural numbers. Durations are
-- nanoseconds; the two products of RetryAfterDelay and Backoff wrap at 64 bits.
--
-- Outside the development: the decoding of JSON and HTTP (the answers of the API are given, decoded
-- or not); the iteration of a Go map is the order of its list of entries, each key once; the order in
-- which the concurrent fetches finish is a function `arrive` that permutes its list; the full-text
-- search of SQLite is a function `hits_of` from a query to its hits. The reads of query.go leave out
-- that the database may refuse them. Context, progress callback, number of workers and duration of a
-- build are left out, since they change neither the tables nor the lists of the result. The
-- encoding of JSON and base64 in internal/mcp/bound and the floats of the limiter are parameters
-- too. Of doInternal, the headers and bodies, masking and the cache's files are left out. The other
-- commands of internal/cli, the server of internal/mcp, internal/learn, the rest of internal/platform,
-- internal/client, internal/cliutil and internal/store (resources, learnings, events) are not modelled.
mod Base
pub mod Iconindex
pub mod Mcp
pub mod Platform
pub mod Client
pub mod Cliutil
pub mod Store
pub mod Cli
mod Examples
