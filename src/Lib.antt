-- ===== src/Lib.antt =====
-- Verification of cargohold, a Git LFS server in Go.
--
-- The server answers the Git LFS batch API (which objects to send or to fetch), carries the content
-- through itself to an S3 storage, verifies uploads, and signs users in through GitHub. The metadata
-- of objects and the access policies are in PostgreSQL, with a Redis cache before them.
--
-- Files and the code they model:
--   Failure        Go's error values: internal/usecase/errors.go, internal/domain and
--                  internal/infrastructure/s3/errors.go, with errors.Is and errors.As.
--   Exec           functions with an error result that act on a world `W` behind an interface. The
--                  world comes back beside an error, so that partial effects are kept.
--   Domain         internal/domain: Oid (oid.go, size.go, hash_algorithm.go, storage_key.go), Object
--                  (lfs_object.go), Repository (repository_identifier.go, allowed_repository.go),
--                  Operation, Policy, User, Redirect and Shell.
--   Ports          the interfaces between use cases and infrastructure as records of operations;
--                  Ports/Promises states what their implementations promise, over a view of the
--                  stored objects and policies.
--   Usecase        internal/usecase: Authorize (authorization_helper.go and the domain's
--                  access_authorization_service_impl.go), Request, Response, Upload, Download, Batch
--                  (batch_*_usecase.go), Verify, Proxy (proxy_*_usecase.go), Oauth
--                  (github_oauth_usecase.go), Auth (github_oidc_usecase.go, session_auth_usecase.go
--                  and auth_usecase.go), Readiness (readiness_usecase.go).
--   Infra          internal/infrastructure: StorageKey (s3/storage_key.go), CacheKeys (redis), Urls
--                  (url), Caching (caching_lfs_object_repository.go), Allowlist
--                  (caching_repository_allowlist.go), Postgres (the data access objects and the
--                  repositories of postgres, and transaction.go), Redis (cache.go, session.go,
--                  session_store_adapter.go, oauth_state_store.go, user_info_serializer.go), Oidc
--                  (jwks.go, jwt_verifier.go, github_provider.go, github_repository_checker.go), S3
--                  (client.go, presign.go), Masking (logging/masking.go) and Health (the three
--                  health_checker.go).
--   Handler        internal/handler: Dispatcher (middleware/auth_dispatcher.go, common/repository.go),
--                  Http (lfs_common.go, response/types.go), BatchApi (batch_handler.go,
--                  dto/batch_request_dto.go), ProxyApi (proxy_handler.go), VerifyApi
--                  (verify_handler.go), Errors (middleware/error_handler.go), LogMasking
--                  (middleware/log_masking.go), Login (auth) and Readyz (readyz_handler.go).
--   Tests          a world in memory that keeps every promise, and the theorems applied in it.
--   Prelude        tests on numbers, lists, 64-bit integers and texts.
--
-- A Go string is the list of its bytes, since every character class and separator of the program is
-- ASCII; messages for people are native strings. An int64 is an integer: the program compares sizes
-- and adds none. A nil pointer is `none`. `ctxtime.Now` reads the clock of the world. All loops run
-- over lists, so that no fuel is needed.
--
-- Parameters, with what is asked of them as hypotheses: PostgreSQL and pgx behind the statements
-- that are sent, go-redis, the AWS library, GitHub and HTTP, jwt.Parse, url.Parse, base64,
-- encoding/json, mime, the functions of strings and html that rest on Unicode tables, and the size
-- of int. The statements are written out with their arguments; what they do to the tables is asked
-- as PostgreSQL documents it, with the keys that migrations/000001_initial_schema.sql declares.
--
-- An instant is a number. A column TIMESTAMP keeps of an instant what the parameter `kept` of a table
-- says, such as its microseconds, and the stored objects and policies have these times. A statement
-- or a commit for which an error came back may have taken place, since the connection may be lost
-- before the answer; it takes place as a whole or not at all.
--
-- How the parts meet: the use cases take of their repository what IsObjectStore of Ports/Promises
-- says, which the repository of PostgreSQL keeps, as it does what the caching repository takes of it
-- (IsBacking). The caching repository promises less, IsCachedStore of Infra/Caching/Store: its answers
-- may have other times, and cache and repository agree after a write only where the cache took the
-- new entry, or the write failed and did not take place. So what is said of the use cases is said of
-- them over the repository itself. The handlers call the use cases of Usecase themselves.
--
-- Not modelled: routing and the rest of echo, log lines, the deadline of the proxy, the frame of the
-- HTML page, making the clients of PostgreSQL, Redis and S3, the exchange of the code and the user of
-- the sign-in, the monotonic clock and the zone of a time, the use cases over a cache that is out of
-- date, configuration and the start of the program.
pub mod Prelude
pub mod Failure
pub mod Exec
pub mod Domain
pub mod Ports
pub mod Usecase
pub mod Infra
pub mod Handler
pub mod Tests
