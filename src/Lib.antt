-- ===== src/Lib.antt =====
-- The Nostr storage orchestrator: paid accounts store blobs through a proxy on the machines of storage
-- providers, with the accounts, blobs and payments in a database behind an internal API.
--
-- The parts, and the files that model them:
--   - Lifecycle: packages/lifecycle/src/state.ts. Lifecycle/Config is `parseLifecycleConfig` on a parsed
--     value, Lifecycle the access state that `deriveAccess` makes of an account's dates, and `daysUntil`.
--   - Db: packages/db. Db has the tables of prisma/schema.prisma as lists of rows and a transaction as a
--     function from the tables to a result; a failed transaction leaves them as they were. Db/Blobs is
--     the /blobs routes of src/index.ts, Db/Entitlement src/entitlement.ts, Db/Users the entitlement
--     transaction and the bulk delete of src/routes/users.ts, Db/Notifications the log of
--     src/routes/notifications.ts, Db/Storages the rosters and the capacity of
--     src/routes/storages.ts, Db/Pagination src/pagination.ts with the page of an account's blobs,
--     Db/Moderation the audit.
--     Db/Service serves their requests one after another, and Db/Payments follows a payment through them.
--     Db/Gate is src/internal-auth.ts over the service accounts of src/routes/service-accounts.ts.
--   - Proxy: proxy/blossom/src. Proxy/Placement is `fnv1a` and `selectOwner` of servers.ts, Proxy/Upload
--     its `uploadBlob`, Proxy/Registry its roster, Proxy/RateLimit is rate-limit.ts, Proxy/Token
--     `verifyAuthToken` of nostr.ts, Proxy/Access the cache of access.ts,
--     Proxy/Admin the cache of admins and the gates of admin-auth.ts. Proxy/Client is what a
--     caller gets of packages/db-client/src/client.ts. The handlers of index.ts stand over these: Proxy/Put
--     is PUT /upload, Proxy/Gate what is decided before its body is read and HEAD /upload, Proxy/Read
--     the reads of a blob, Proxy/Remove its deletion by an owner or an admin, Proxy/Purge the purge of
--     an account. They change a World: the tables of db-api, the cache, the roster, the bytes that the
--     nodes hold (Proxy/World); Proxy/Handler is their steps and how a property goes through
--     them, Proxy/Durable what the nodes hold for the rows.
--   - Nip98: packages/nip98/src/verify.ts, the check of signed requests and its replay cache.
--   - Notifier: `deliver` of packages/notifier/src/scheduler.ts, over Db/Notifications; Notifier/Due is
--     `dueNotifications` of src/notifications.ts there.
--   - Common has the shared helpers: integers over the native numbers, JavaScript's values and dates,
--     lists, the order and the bytes of texts. Tests has the theorems at concrete inputs.
--
-- How the code corresponds to the model. Names are the code's in snake case. A handler is a function from
-- the request and the tables to the response and the tables; the time is an argument. A `bigint` is an
-- integer, a column of type BigInt refuses what 64 bits do not hold, and a `Date` is a count of
-- milliseconds from the earliest date, or invalid, which is what a sum past the last date gives. A
-- `Map` is an association list in the order of insertion. What the code takes from JavaScript's library
-- (`BigInt(…)`, `new Date(text)`), from nostr-tools and from Node is a record of functions that the
-- definitions take (Common/Js's `Runtime`, Nip98's `Library`); what a provider or a channel answers is an
-- argument too. A handler of the proxy runs at one time and alone, and a `Network` says of each of its calls
-- whether it is answered; a write may also be served with its response lost. A node keeps what it took
-- until a delete that it answers, and an upload that it refuses leaves nothing there.
--
-- Bounds and fuel. `upload_loop` runs on fuel one more than the candidates; each round removes one, so it
-- never runs out. `decimal` writes at most 16 digits, and the hours since the epoch have fewer for
-- every `Date`. The purge runs on fuel above the rows of the account, of which every round removes one
-- at least. The hash is kept below 2 ^ 64 by the remainder that the code's mask is.
--
-- Not modelled: the network, the database's own concurrency (a transaction is one step), requests to the
-- proxy that overlap, logging, the user interfaces, the Rust services, and the routes on
-- members.
pub mod Common
pub mod Lifecycle
pub mod Db
pub mod Proxy
pub mod Nip98
pub mod Notifier
pub mod Tests
