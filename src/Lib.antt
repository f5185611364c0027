-- ===== src/Lib.antt =====
-- Verification of weiyeston, the multi-tenant backend for WeChat official accounts under internal/.
--
-- A request passes the middleware of internal/middleware, each of which may abort it, and reaches a
-- handler of internal/handler/api, which binds its parameters, sends statements to PostgreSQL through
-- a repository and answers with one JSON response. The modules follow these parts:
--
--   Base, Strings, Strconv, Assoc, Keys  shared functions and lemmas: tests, integers, lists,
--       strings.HasPrefix and strings.TrimPrefix, strconv.ParseInt, strconv.FormatInt and
--       strconv.Atoi in base 10 and for 64 bits, maps as association lists, tables under a BIGSERIAL id
--   Http, Sql  how a handler runs: `Run` is a handler's outcome, with c.JSON and a return as `stop`;
--       `statement` sends one statement, which the database or the connection may refuse
--   RateLimit  internal/middleware/ratelimit.go: tokenBucket is TokenBucket, bucketStore is Store,
--       `allow`, `get_or_create`, `cleanup` and `rate_limit` are its methods and RateLimit
--   Middleware  internal/middleware: Auth is `auth`, Tenant is `tenant`, RequireRole is
--       `require_role`, CORS is `cors`, over the three keys of gin.Context that they set
--   Vote  internal/handler/api/vote.go and internal/model/vote.go: Vote.Statements has the SQL,
--       Vote.Repo voteRepoImpl, Vote.Views the view objects, Vote.Handlers the handlers, Vote.Page
--       the paged list
--   Menu  internal/handler/api/menu.go and internal/model/menu.go: the SQL and menuRepoImpl in Menu,
--       the handlers in Menu.Handlers
--   Account  internal/model/account.go; Account.Repo is internal/repository/account/account.go,
--       Account.Handlers internal/handler/api/account.go, Account.Listing the pages of both,
--       Account.Ownership
--       internal/middleware/account.go and its place behind the tenant middleware in
--       internal/router/router.go
--   Redis  the commands of Redis as an interface with its laws, and one in memory that has them
--   Tenant  internal/model/tenant.go; Tenant.Repo is internal/repository/tenant/tenant.go
--   Auth  internal/service/auth.go; internal/handler/api/auth.go is Auth.Session (Login, Refresh,
--       Logout), Auth.Profile (Me, Profile, UpdateProfile, ChangePassword) and Auth.Handlers (the rest)
--   Admin  internal/handler/api/admin.go, and its routes in internal/router/router.go
--   Cache  internal/cache/redis.go over the commands of Redis
--   Wechat  internal/repository/ticket/ticket.go; internal/service/wechat/wechat.go is Wechat.Tokens
--       (the tokens and the links to an authorization) and Wechat.Events (the events), where
--       internal/handler/wx/component.go hands the events on
--   Reply  internal/repository/reply/reply.go and, in Reply.Handlers, internal/handler/api/reply.go;
--       Reply.Spec is the map from ids to rules that the handlers are to implement
--   Config  internal/config/config.go: Validate is `validate`, the expirations of tokens
--
-- The environment of a request says at what time it runs and which of the statements that the server
-- sends fail in the driver, and a handler takes it as a parameter. A statement that fails changes
-- nothing; a value that is too long for its column is one of these failures. Requests run one at a
-- time: statements of two requests do not interleave.
--
-- int64 identifiers are integers without a bound, since the source does no arithmetic on them; a page's
-- offset, which it computes, wraps round at 64 bits. The counters of a table count up from 0 without a
-- bound. Recursion is structural, but for the digits of FormatInt, whose fuel is the number itself. The
-- rate limiter's float64 is exact here.
--
-- bcrypt, the jwt library and Redis are parameters, with what their documentation says: a hash accepts
-- its password, a signed token is valid under its key until its time, a key of Redis holds what was
-- set until its time. A command to Redis counts as a statement of the request. What a request draws
-- at random, a salt and two UUIDs, is given with it. encoding/xml is a parameter without laws, and so is
-- the text that the JSONB column of a menu gives back.
--
-- Not modelled: the text of an error that a message quotes, logging, the JSON syntax of bodies (a body
-- binds to a request or does not), and the other parts of the repository: CMS, materials,
-- storage and start-up.
pub mod Base
pub mod Http
pub mod Strconv
pub mod Assoc
pub mod Keys
pub mod RateLimit
pub mod Strings
pub mod Middleware
pub mod Sql
pub mod Vote
pub mod Menu
pub mod Account
pub mod Config
pub mod Redis
pub mod Tenant
pub mod Auth
pub mod Admin
pub mod Reply
pub mod Cache
pub mod Wechat
