-- ===== src/Lib.antt =====
-- ParkHub's backend (parkhub-api), modelled: the domains of devices, parking lots, SMS codes and
-- identities.
--
-- The program is a monolith of domains. Each domain has an entity with its rules (domain), a table
-- (repository/dao), a repository that carries rows to entities and back, and a service whose methods
-- read an entity, change it and write it back; gRPC servers call the services. The SMS domain keeps
-- its codes and rate limits in Redis beside a table of records, and the identity domain its refresh
-- tokens beside the users.
--
-- Which file models which part:
--   Base (Tests, Lists, Results, Ends, Int, Maps)  shared helpers; Go's `(value, error)` is `Result`, and a
--     method is an `Action`: from a store to a result and the store it leaves, also where it fails; Ends has rules on
--     how an action ends, from one state
--   Errors       internal/domains/{iot,parking,sms,identity}/errs/errors.go
--   Gorm         gorm over MySQL, a parameter: the statements that the DAOs send, with laws on the rows
--     of one table (Gorm). Logic has triples over them, Ends their ends
--     from one state, Groups the loops over a GROUP BY, Transaction
--     the loops of the batch methods,
--     Memory a table in memory at which the laws hold
--   Redis        go-redis, a parameter: the commands that the cache sends, Lua scripts among them, with
--     laws on what each key holds and for how long. Memory is a store at which the laws hold
--   Paging       page numbers, sizes and counts of the services' List methods
--   Iot          internal/domains/iot: Device (domain/device.go), Dao (repository/dao/device.go), Repo
--     (repository/device_repo.go), Service (service/device_service.go, service/interface.go),
--     Proto and Server (grpc/helpers.go, grpc/device_server.go)
--   Grpc         pkg/grpcutil/errors.go: errors as gRPC statuses; and the tenant in a call's context
--   Parking      internal/domains/parking: Lot and Lane (domain), LotDao and LaneDao (repository/dao),
--     LotRepo and LaneRepo (repository), LotService (service/parking_lot_service.go), LaneService
--     (service/lane_service.go, over two databases)
--   Sms          internal/domains/sms: Code (domain/sms_code.go), Cache (repository/cache/redis_cache.go),
--     Record (repository/dao/sms_record.go), Repo (repository/sms_repo.go), Service
--     (service/sms_service.go)
--   Identity     internal/domains/identity: User, Tenant and Token (domain/user.go, tenant.go, token.go,
--     signer.go), UserDao and TenantDao (repository/dao), UserRepo and TenantRepo (repository),
--     RefreshTokens (repository/cache/refresh_token_repo.go), UserService, TenantService and AuthService
--     (service/user_service.go, tenant_service.go, auth_service.go). Locked has what the user service
--     and the auth service do together
-- Below a service or a cache stand the modules of what is shown of it (Isolation, WellFormed,
-- Sound, Capacity, Stats, Bindings, Batch, Reads, Answers, Once, RateLimit, Stored, Fresh,
-- Refusals, Live, Login, Renew, Calls, Steps, Session, Changes, Passwords, Creation, Import, Summary,
-- Counts, Missing, Updated, Timed), and in
-- Tests the runs at small stores; Identity/Sample has a hash and a signer for them.
--
-- How code becomes definitions. A Go function has the same name in the spelling of these files
-- (`UpdateName` is `update_name`). A table is a list of rows; a WHERE clause is a Boolean predicate,
-- an UPDATE the assignment to the selected columns. A LIKE is the parameter `like`. Go strings that
-- are used as enumerations are data types with a constructor for any other text. Texts are compared
-- byte for byte. `int` is the integer it stands for, without overflow: the numbers are places of a
-- lot and page numbers. Times are milliseconds and an argument; gorm's own clock belongs to the
-- database. Ids from `uuid.New`, chance, JSON, the SMS gateway and verifier, bcrypt and the signer of
-- tokens are arguments. An UPDATE with a struct leaves out the fields with their zero value, as gorm
-- does. Lives of keys and tokens are taken to be positive.
--
-- What the parameters promise. Where a statement fails, the rows are as before. MySQL may count the
-- rows matched or those changed by an UPDATE. A transaction that returns an error is rolled back, and
-- one that is committed ran from the rows that were there: other writers between a method's own
-- statements are not modelled. A Redis command whose reply is lost may have run, and a failed
-- pipeline promises nothing. All loops of the source run over lists or a fixed number of rounds, so no
-- fuel is needed.
--
-- Not modelled: the signer of tokens (keys and JWT by libraries), the gRPC
-- servers of the other domains, the interceptors that fill a call's context,
-- configuration, start-up and the packages for logging, metrics and tracing. Of the generated code only
-- the fields of the device messages are.
pub mod Base
pub mod Errors
pub mod Gorm
pub mod Grpc
pub mod Paging
pub mod Iot
pub mod Parking
pub mod Redis
pub mod Sms
pub mod Identity
