-- ===== src/Lib.antt =====
-- The anti-bruteforce service, a gRPC server that decides whether an attempt to log in may go on.
-- A request carries a login, a password and an address. An address on the whitelist passes, one
-- on the blacklist is refused, and any other attempt must pass three limits on the number of
-- attempts in a sliding window: for the login, for the password (its digest) and for the address.
-- An administrator adds and removes networks on the two lists and resets buckets.
--
-- Parts, with the code each file is about:
--
--   - Domain, Ports: internal/domain/types.go and internal/ports. An interface is a record of
--     operations over a state type.
--   - Memory/Buckets: internal/storage/memory/bucketsdb.go. Defs has `getTimeline`, `Allow` and
--     `Reset`; Window has the ledger that the store is compared with; Pruning, Timelines,
--     Refinement and Safety have the proofs.
--   - Memory/Subnets: internal/storage/memory/subnetlistdb.go, one function for each method in
--     Defs.
--   - Subnet/List and Subnet/Policer: internal/domain/subnetlist. Subnet/List/History compares a
--     list with the texts that it should hold after any calls.
--   - RateLimit: internal/domain/ratelimit, with the limits of internal/config and
--     internal/domain/subnetlist/config.go.
--   - App: internal/app, the service behind the checks (RateLimiter, Password) and the one behind
--     the lists (SubnetLists).
--   - Adapters: internal/adapters/subnetupdatepublisher/local_publisher.go.
--   - Delivery: internal/delivery/grpc and the messages of
--     api/proto/anti_bruteforce/v1/anti_bruteforce.pb.go.
--   - Local: `run` of cmd/anti-bruteforce/main.go in the local mode, where the stores are in
--     memory. World is the whole state. Reload, Manage, Enforcement and Poison follow a change of
--     the lists from the store to the answers of `Check`. Limits, Attempts and Chain follow an
--     attempt from `Check` to the buckets that it asks; Events, Trace and Bruteforce are about
--     runs of attempts, resets and changes.
--   - Client: internal/abfclient, and in Client/Commands cmd/abfctl; Client/Served puts the
--     commands over the server of the local mode. Client/Root has the root command and `main`,
--     Client/Exit what a run comes to, and Client/Program a run against the server.
--   - Adapters/Redis: internal/adapters/redissubscriber, and the publisher of redis_publiser.go.
--   - Meta: internal/ctxmeta; Meta/Interceptor: internal/delivery/grpc/interceptors/requestid.go
--     and `withCtx` of internal/logger; Meta/Logging, with the proofs in its child Lines: the
--     rest of internal/logger and internal/delivery/grpc/interceptors/logging.go.
--   - Postgres: internal/storage/postgresdb, with the queries of the store. Postgres/Sql has
--     their syntax and what PostgreSQL documents of them, with the constraints of db/migrations;
--     Postgres/Contents has the proofs, and Postgres/Agreement compares the store with the one in
--     memory. Postgres/Open opens the database.
--   - Redis: internal/storage/redisdb/buckets_repo.go. Server says what Redis documents of its
--     commands; Window has the ledger that the store is compared with; Members, Transaction,
--     Keeps, Refinement and Bound have the proofs. Redis runs a transaction at the time at which
--     `Allow` read its clock.
--   - Connect, Factory: internal/factory/redisclient.go, and the ping that every client is made
--     with.
--   - Config: internal/config/config.go; Config/Documented says what the program relies on of
--     viper and mapstructure, and Config/Defaults follows the defaults to the structure.
--   - Migrator: cmd/migrator/main.go; Migrator/Closing and Migrator/Rejection have the proofs.
--   - Startup: `run` of cmd/anti-bruteforce/main.go until the server is registered, in both
--     modes; what it makes of the mode is in Startup/Modes, and Startup/LocalServer leads to
--     Local. Startup/Serving has the goroutines that `run` ends with, as steps in any order; its
--     children Invariant, Outcome, Progress and Graceful have the proofs. Startup/Program has
--     `run` as a whole and `main`.
--   - Adapters/Sync: the external mode seen from one instance, as steps: a change of the tables,
--     its news (the steps `change` and `publish`, for internal/app/subnetlist_service.go of any
--     instance), and the two reads of the reload in the loop of
--     internal/adapters/redissubscriber; Sync/Agreement has the invariant.
--   - External: the limits of the external mode, internal/app over internal/storage/redisdb, for
--     the attempts of all instances at one Redis. Chain, Attempts and Calls lead from `Check` to
--     the calls of the store, and Bruteforce has the bound.
--   - Net: Go's package net as an interface that all theorems are parametric in; Net/Go is an
--     IPv4 instance of it for the tests.
--   - Base: lists, integers, byte strings, Go maps, Go's millisecond clock, and calls that change
--     a state and may fail. Tests: concrete inputs.
--
-- Assumptions. A call is one atomic step: in the stores this is what the mutexes give. In
-- External, an attempt with its transactions in Redis is one step. The clock is an argument of
-- the calls that read it, and theorems on runs of calls assume that it does not run backwards.
-- `Allow` of the memory store reads the clock before it takes the lock of the timeline; the model
-- takes both as one step. Instants and limits are unbounded integers, so an overflow of 64 bits
-- is outside the model; milliseconds are the floor of nanoseconds. Contexts are left out but in
-- Meta. A loop over a Go map runs in an order that is a parameter: any permutation of the
-- entries. Strings are lists of bytes. SHA-256 is a parameter. The loops of the modelled code are
-- over lists; only the decimal digits of a number are made on fuel, with one unit more than the
-- number, which is enough since each round divides the number by ten.
--
-- Not modelled: the lines that the programs print, the reading of command lines, the order of
-- deferred calls, and the generated code of gRPC, which are I/O or calls of libraries. The
-- drivers of PostgreSQL and Redis, goose, viper, mapstructure, slog, cobra, errgroup, the gRPC
-- server, strings.ToLower and fmt.Sscan are parameters, with what they document as named
-- hypotheses.
pub mod Base
pub mod Domain
pub mod Ports
pub mod Net
pub mod Memory
pub mod Subnet
pub mod RateLimit
pub mod App
pub mod Adapters
pub mod Delivery
pub mod Local
pub mod Client
pub mod Config
pub mod Connect
pub mod External
pub mod Factory
pub mod Meta
pub mod Migrator
pub mod Postgres
pub mod Redis
pub mod Startup
pub mod Tests
