-- ===== src/Lib.antt =====
-- A model of shortr, a self-hosted link shortener in Go: its link service, redirect cache, token
-- buckets, target validation, click pipeline, signed cookies, accounts and their sign-in with two
-- factors, the identity of a request, and the filter of its public listener.
--
-- How the parts interact: the HTTP server resolves a short code through the link service, which
-- asks the cache and, on a miss, the table of links; a redirect of a limited link consumes a click
-- from the service's counters. Creation and the writes of a link go to the table and invalidate the
-- cache. The server limits attempts with token buckets, and decides by the path what its public
-- listener serves.
--
-- Files:
-- - Base: names of the standard library, tests of numbers, lists, byte strings, association lists.
-- - Store: internal/store/types.go, links.go, users.go. The table of links as a list of rows, with the
--   primary key and the unique index on the lower-cased code checked at every write; any statement
--   may fail (`faults`), and an insertion for a user that does not exist does. Store/Rows and Store/Lookup hold the lemmas.
-- - Store/Types, Store/Users, Store/Accounts: internal/store/types.go, users.go, sessions.go, apikeys.go,
--   mfa.go, oidc.go, settings.go, audit.go. The rows of users, with their unique addresses, and of what
--   belongs to them; Store/Reads holds the lemmas on the queries for one row.
-- - Link/Code: internal/link/code.go. Code generation by rejection sampling; `read i` is the result of
--   the call number `i` of rand.Read, and `fuel` bounds the reads: one read for each character is
--   enough if each buffer has an acceptable byte.
-- - Link/Cache: internal/link/cache.go. Get, Put, PutMissing, Invalidate and Len on 64 shards, each a
--   key set and a list of nodes, the most recent first.
-- - Link/Input, Link/Create, Link/Update, Link/Service: internal/link/service.go. Create, Update,
--   ResolveForRedirect, ConsumeClick, PruneHits, SetPolicy, Delete, Purge and Restore, with the table, cache and counters
--   as explicit state. A request is one step, but for the cache miss, whose query and entry are two.
-- - Validate: internal/validate/validate.go. TargetURL, IsPrivateIP, StrLen and NextPath; net/url and
--   the address parser are a record of functions.
-- - RateLimit: internal/ratelimit/bucket.go, with exact instead of floating-point token counts,
--   but for the refill that Peek computes, which is a function that the limiter carries, since it is
--   rounded otherwise than Allow's.
-- - Click: internal/click and InsertClicksBatch of internal/store/clicks.go. Click/Agent, Click/Address
--   and Click/Enrich make a row of an event; Click/Batch is the transaction; Click/Writer is the loop
--   of Writer.Run, one function for each case of its select, over sequences of actions.
-- - Auth/SignedCookie: internal/auth/signedcookie.go, over an abstract HMAC and base64.
-- - Auth/Totp: internal/auth/totp.go: one-time codes, sealed secrets, recovery codes, over an abstract
--   HMAC, AES-GCM, SHA-256, base32 and base64.
-- - Server/Console: the state of the handlers of accounts, the errors of internal/server/errors.go, and
--   the sessions and the audit trail of auth.go. Server/Login: internal/server/auth.go. Server/Mfa:
--   internal/server/mfa.go. Server/Identity: internal/server/auth_middleware.go. Server/Users: the
--   handlers of users of internal/server/api_admin.go. Server/Links: the handlers of one link
--   and of bulk requests of internal/server/api_links.go.
-- - Server/Plane: internal/server/plane.go. Server/Redirect: internal/server/redirect.go, the handler
--   of short codes over the link service, the limiter of passwords and the click queue.
-- The Tests modules run the definitions and theorems on concrete data.
--
-- Times are nanoseconds in ℕ. Strings are lists of bytes; letter case is that of ASCII. Machine
-- integers that the code reads as counts are ℕ, since their tests admit no negative value; the FNV
-- hash keeps its 32-bit wrap-around.
--
-- Not modelled: HTTP plumbing, templates, SQL text and drivers, the listing and analytics queries,
-- configuration, background jobs, notifications, the OpenID Connect callback, password hashing, the
-- other API handlers, the model context protocol endpoint, and the web and Android clients.
pub mod Auth
pub mod Base
pub mod Click
pub mod Link
pub mod RateLimit
pub mod Server
pub mod Store
pub mod Validate
