-- ===== src/Lib.antt =====
-- A model of the accounting API under app/, and the theorems that make it correct.
--
-- The program is a FastAPI service over a relational database. Use cases (app/application) call
-- repositories (app/infrastructure/database/repositories) through ports; the repositories read and
-- write the tables (app/infrastructure/database/models) in one session; a commit tells the cache
-- which ledgers have changed (app/infrastructure/database/events.py).
--
-- The files, and the code that each of them models:
--   Prelude     the monad of calls that may raise, signed integers, rows of a table, Python's `str`
--   Calendar    Python's `date` and `datetime`, `next_month_charge` and `_next_month`
--   Domain      the dataclasses of app/domain
--   Schema      the tables of app/infrastructure/database/models
--   Events      app/infrastructure/database/events.py
--   Ledger      app/application/ledger and repositories/ledger.py: Categories, Transactions,
--               Bookkeeping (the use cases of transactions.py), Subscriptions, Budgets, Charges
--               (`ProcessDueSubscriptions`)
--   Settings    app/core/config.py, and `client_address` and `describe_wait` of
--               app/presentation/dependencies/rate_limit.py
--   Mail        app/application/notifications/message.py, app/infrastructure/mail/addresses.py and
--               template.py (Colours, Markup, Page, Template)
--   Identity    app/application/identity with repositories/users.py, refresh_tokens.py,
--               password_resets.py and email_changes.py: Users, Tokens, Sessions, Mails (with
--               app/infrastructure/identity/runtime.py)
--   Savings     app/application/savings and repositories/savings.py
--   Admin       app/application/admin with repositories/admin.py, and `get_current_user` of
--               app/presentation/dependencies/auth.py
--   RateLimit   app/infrastructure/security/rate_limit.py: `InMemoryRateLimiter`, and in Shared
--               `RedisRateLimiter`, with the replies of its server as a parameter
--   Notifications  app/application/notifications/services.py, repositories/notifications.py and
--               app/infrastructure/notifications/runtime.py
--   Schemas     app/presentation/schemas
--   Http        app/presentation/http: Auth and Credentials (auth.py), Ledger and Entries (ledger.py,
--               savings.py), Administration (admin.py), Requests (the permissions of a route), Tasks
--               (what runs after a reply)
--   Examples    a small database and the theorems applied to it
--
-- A call is a function from the database to a result, or the exception that it raises, and the
-- database that is then committed: what a use case has committed before it raises stays. A table is
-- the list of its rows, the latest first. The constraints of a table are tests that an operation
-- makes before it writes, and a refused commit is `integrity_error`. An ORM object's relationship
-- to its category is a field that is filled when the row is written. The clock, `uuid4` and random
-- tokens are arguments. The hasher, the digest of tokens, the signing of access tokens, `str.lower`,
-- the time zone, the collation of the database, `ipaddress` and the SMTP server are parameters. A handler
-- is a function from the rows, the outbox and the limiter to a reply, an `HTTPException` or a crash,
-- and the state after it.
--
-- Money is a signed integer without bound (the column is a BIGINT, the schemas bound what enters),
-- an identifier is a number, an instant counts microseconds, text is a list of code points. The
-- width of a text column is not modelled.
--
-- Two loops run on fuel, of which they are given enough: the charging of one subscription gets the
-- months from its charge date to the last due day and one more round to stop, the closing of the
-- months gets those from the first month to the current one and one more.
--
-- Not modelled: the cache itself (a read is the query that it stands for), the scripts that the
-- rate limiter runs on Redis, the connection to the SMTP server, the health route and the response
-- envelope, the endless loops of the schedulers, the wiring of the application and the migrations.
-- FastAPI's order of a request, dependencies, payload, handler, reply, tasks, is that of
-- Http.Requests and Http.Tasks.

pub mod Prelude
pub mod Calendar
pub mod Domain
pub mod Schema
pub mod Events
pub mod Ledger
pub mod Settings
pub mod Mail
pub mod Identity
pub mod Savings
pub mod Admin
pub mod RateLimit
pub mod Notifications
pub mod Schemas
pub mod Http
pub mod Examples
