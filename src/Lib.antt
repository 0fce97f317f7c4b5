-- ===== src/Lib.antt =====
-- Verification of BDUTS, an HTTP load balancer with a cache, written in Go.
--
-- Parts. `loadBalancerHandler` (lb/lbHandlers.go) answers a client's request from the cache, or leaves
-- it to `backendHandler`, which asks the server pool (backend/serverPool.go) for the next alive
-- backend, takes a place in that backend's channel (backend/backend.go), forwards the request, gives
-- the place back, and passes the answer on or tries the next backend. The cache (cache/*.go) keeps
-- pages on disk and their metadata in a bolt database, and a cleaner makes room. An admin adds,
-- removes and lists backends and clears the cache (lb/adminHandlers.go), and a health check (main.go)
-- sets the backends' flags. The admins' accounts are in another bolt database (db/db.go), on which
-- auth/auth.go signs them up and in, with letters of email/email.go; its middleware lets only requests
-- with a token through to the admin's handlers. main.go starts the parts and sets the routes, and
-- admin_app/main.go is the console that sends an admin's requests to them.
--
-- Files.
--   Prelude: shared names, lists over the native numbers, Go's int32 and int64 as wrapped integers,
--     and `Go`, the result of a call that can panic.
--   Http: what the handlers use of net/http: requests, responses and the response writer.
--   Backend: backend/backend.go, one definition for each method. A channel of `true` is its
--     capacity and its count of items.
--   ServerPool: backend/serverPool.go over a heap of backends, since the pool, the handlers and the
--     health checks share them by pointer. Current, RoundRobin, Membership and Steps prove.
--   Metrics: metrics/handlerFunc.go; Timer: timer/timer.go.
--   Lb/Front: loadBalancerHandler, getPageHandler and SaveToCache. Serving proves. Timed has
--     LoadBalancerHandler and these with what they tell the metrics; Before, Counting and Trips prove.
--   Lb/Handler: backendHandler, its `goto` loop as a machine with one step for each point at which
--     other goroutines may come in. Effects, InFlight, Quiet with its children, Progress, Livelock,
--     Replies and Metered, which adds the metrics, with its children Passing and Counts, prove.
--   Lb/Admin: the admin's handlers. Adding, Removing, Listing and Clearing prove.
--   Lb/Starting: the configuration, NewLoadBalancerWithPool and a round of HealthChecker
--     (lb/loadBalancer.go), and main.go up to the first check. Checks and Ready prove.
--   Users: db/db.go, over the same interface of bolt. Accounts proves; Directory is the specification
--     that Refinement and History prove it to implement.
--   Mail: email/email.go; a letter is the arguments of smtp.SendMail.
--   Auth: auth/auth.go, the checks and tokens, and in Handlers the handlers. Base64, Tokens, Limits,
--     SigningUp, SigningIn, Changing, Undelivered and Deleting prove.
--   Main: the routes of main.go over all the handlers, with CORS and the authentication. Guarding
--     proves.
--   Boot: main.go up to http.Serve, as a program that can end at each of its steps and keeps what it made
--     on disk. Readers has the readers of config/*.go, Opening the steps, Observing the ticks of the
--     cleaner that come before, Sequence the order. Steps, Preparing, Observed,
--     Keeping, Enrolling, Late, LockedOut, FirstStart, Ticking, Reached, Entering and Ready prove.
--   Console: admin_app/main.go; Handling has its handlers and handleArgs. Meaning is what each command
--     is meant to do to the load balancer, which Sending proves; Exits proves too.
--   Text: the functions of strings and strconv that read a Cache-Control header.
--   Cache: cache/*.go. Directives reads Cache-Control headers; Bolt is the interface of the database
--     with its laws; Disk is the part of package os that the pages use; Store has the state; Insert,
--     Read, Remove and Cleaner have the operations of the files of these names, and Whole those on
--     the whole cache. Their children prove: Directives/Reading, Disk/Writing, Disk/Removing,
--     Insert/Written, Insert/Metadata, Insert/Stored, Read/Found, Cleaner/Expired, Cleaner/Seldom,
--     Cleaner/Watching and Whole/Clearing. Telling makes the calls of the metrics that the operations list
--     in `untold`, and proves what they come to.
--   Config: ParseRequestKey (config/cacheConfig.go), which nothing calls. Keys proves.
--   Tests: the theorems at concrete inputs, and runs.
--
-- Correspondence. Names are the source's in snake case (GetNextPeer is `get_next_peer`). A method
-- that changes its receiver returns the new one. A mutex makes its method one step. `none` stands
-- for nil. The loop of GetNextPeer recurs on the rounds that are left, as many as there are servers;
-- that of backendHandler is driven by a list of network answers, and Progress proves how many are
-- enough. A path of the cache is the list of its components, the last one first; a time is its number
-- of nanoseconds since the year 1. The cache's operations run one after the other; each call of
-- time.Now that matters is an argument. What they tell the metrics is a list in the state, `untold`, since
-- GlobalMetrics may be nil; LoadBalancerHandler, a tick of the cleaner and the start make these calls,
-- the other callers leave them in the list.
--
-- Outside. net/url.Parse, the dial of a health check, http.Client.Do, http.NewRequest, http.ServeFile
-- and encoding/json are parameters, and so are bolt, with the laws of Cache/Bolt, the validator, bcrypt
-- and jwt (`Trust` and `Draws` of Auth, with laws in Auth/Limits, Auth/SigningUp and Auth/Tokens),
-- rand.Read and smtp.SendMail. What a start finds of the system is `Machine` of Boot, and what outlives it
-- `Site`. A database that cannot be written is left out. A text of a
-- user is its bytes, all other texts are strings. The routes are http.ServeMux's for paths that are
-- clean; a handler's panic leaves the state as it was.
--
-- Not modelled: a tick of HealthChecker before http.Serve, TLS beyond whether its files load, the server
-- of the metrics on its port, what backendHandler tells the metrics of the time and the length of an
-- answer, logging, rounds of health checks that overlap, and the slices' shared backing arrays. Header
-- names are taken to be in canonical form.
pub mod Prelude
pub mod Http
pub mod Text
pub mod Cache
pub mod Users
pub mod Mail
pub mod Auth
pub mod Console
pub mod Main
pub mod Boot
pub mod Config
pub mod Backend
pub mod ServerPool
pub mod Metrics
pub mod Timer
pub mod Lb
mod Tests
