-- ===== src/Lib.antt =====
-- Verification of paste.thek4n.ru, a service that keeps texts and links under short keys.
--
-- A request to cache a text comes to the handler `Cache`, which reads the parameters of the query
-- and the body and calls `CacheService.Serve`. The service asks the API key service who asks,
-- checks the parameters against the limits for everybody or for owners of a key, picks a free key
-- (a generated one, or the one that was asked for), writes the record, and takes one from the quota
-- of the address; the use of an API key is published as an event, which a handler sends to a
-- broker. A request for a key comes to `Get`, which calls `GetService.GetBody`: that reads the
-- record, counts the read, writes the record back and answers with its body. The repositories keep
-- records, quotas and API keys in Redis. API keys are administered by `APIKeysService`, which the
-- command `apikeys` calls. The command `run` makes the repositories, the services and the handlers,
-- registers the handlers' routes and serves; `ping` asks a server whether it is healthy.
--
-- Files and code:
--   Errors: internal/domain/domainerrors, Go's `error` values, and `cacheError` of the handlers
--   Exec: functions that return `(T, error)` and change the world
--   Config: internal/domain/config
--   Domain: internal/domain/objectvalue (Expiration, Disposable, Clicks, Params, QuotaValue),
--     internal/domain/aggregate (Record, Quota, ApiKey), internal/domain/event (Event)
--   Application: internal/application/repository (Repository) and internal/application/service:
--     get.go (Get), apikeys.go (ApiKeys), apikeyValidator.go (Validator), cache.go
--     (Cache/Validate for its checks, Cache/Serve for the rest)
--   Infrastructure: internal/infrastructure/repository: record.go (RecordRepo, KeyGen for
--     `GenerateUniqueKey`, Pool for `compress`, `decompress` and the buffers that these share, Gzip
--     for what the two give as values), quota.go (QuotaRepo), apikey.go (ApiKeyRepo); internal/infrastructure/eventhandler (EventHandler)
--   Web: internal/presentation/webhandlers: cache.go (Params, Answers, Cache), get.go (Get),
--     handlers.go (Request), healthcheck.go (Health) and docs.go (Docs)
--   Cmd: cmd/paste: main.go (Main), apikey.go (ApiKeys, Columns), ping.go (Ping), frontend.go
--     (Frontend) and paste.go (Options, Clients, Routes, Factory, Server)
--   Std: what is used of Go's strings, strconv, encoding/hex, net and the mux of net/http
--   Prelude: numbers, tests, bytes and integers that the modules share
--   Examples: the theorems at concrete inputs
--
-- A method has the name of the Go method in snake case. A type of worlds `W` stands for all that
-- lies outside: databases, clock, random source, broker and connection; an operation takes a world
-- and gives a result or an error with the next world, so that what was done before an error stays
-- done. A Go interface is a record of its methods. Strings and byte slices are lists of bytes; the
-- unsigned integers of fixed width are numbers that wrap where the code lets them wrap, and times
-- are integers in nanoseconds.
--
-- Parameters, each with its documented behaviour as a record of laws where a theorem needs it: Redis
-- through go-redis (Redis/Laws; a key may expire at any moment) and its Lua scripts (Redis/Script,
-- for the statements that the program's script is written in), compress/gzip, the random source, the clock, uuid, the broker, protobuf, the response writer, time.ParseDuration,
-- url.Parse, encoding/json, html/template, go-flags, the console and the HTTP client. The services
-- stand on contracts of their repositories (Application/Repository/Contract).
--
-- A command of cmd/paste is a function from a world to an exit code and the world at its end. The
-- mux is given clean paths: that it redirects others, and a path that lacks its last slash, is not
-- modelled, and neither is the difference of its answers 404 and 405.
--
-- Fuel: the loop of `GenerateUniqueKey` runs on 65536 rounds, more than the rounds that a uint8
-- countdown below 256 leaves for lengths below 255. The loop over the cursor of `GetAll` runs on as
-- many rounds as the deadline of its context leaves time for, an argument.
--
-- Concurrency: Application/Get/Phases cuts `GetBody` where other requests may run, and its steps
-- interleave any number of requests for one record; elsewhere a request runs whole.
--
-- Buffers: in RecordRepo a body is a value. In the source a body that was decompressed is a slice of
-- a buffer that is back in the pool, and the next `compress` may write over it. Pool has `compress`
-- and `decompress` with the pool of record.go, over a memory of arrays, Pool/Repository `GetByKey`,
-- `SetByKey` and `GetBody` with slices, and Pool/Agrees compares this `GetBody` with the one of
-- values. What is said of bodies that come back is said of those for which no buffer is used: not
-- over the threshold of compression, and not beginning like a gzip stream.
--
-- Not modelled: logging; the deadlines of contexts, but for that of `GenerateUniqueKey`; the values
-- that Go returns beside an error, which nobody reads; the keys that error texts quote; requests
-- that run at the same time, but for those for one record; the loggers; generated protobuf code;
-- the embedded files of cmd/paste.
pub mod Prelude
pub mod Errors
pub mod Exec
pub mod Std
pub mod Config
pub mod Domain
pub mod Application
pub mod Infrastructure
pub mod Web
pub mod Cmd
mod Examples
