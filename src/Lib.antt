-- ===== src/Lib.antt =====
-- The hosting service: the core of the Django app `apps/hosting`, which stores the static sites of
-- companies and serves them, and of `apps/actions`, which passes its events on to webhooks and to a
-- mail service.
--
-- A company asks for access; a reviewer grants it; apps (and previews, which expire) are created
-- with a random public slug; a deployment of an app is created, its artifact is uploaded, and
-- finalizing it unpacks the archive into the storage and makes it the app's current one. Requests
-- name files of the current deployment by relative paths.
--
-- Files:
--   Base                  texts as lists of code points, `str` methods, lists, results; the part of
--                         Python's Unicode tables that the code uses is a parameter (Base.Tables)
--   Hosting.Slug          apps/hosting/slug.py
--   Hosting.Paths         apps/hosting/paths.py, with `posixpath.normpath`, the two regular
--                         expressions, and `urllib.parse.unquote` (Paths.Percent)
--   Hosting.Storage       apps/hosting/storage.py
--   Hosting.Extract       apps/hosting/extract.py
--   Hosting.Semver        apps/hosting/semver.py
--   Hosting.Models        apps/hosting/models.py: the rows, and tables of them by primary key
--   Hosting.Access        the company gate of apps/hosting/services.py
--   Hosting.Expiry        the lifetime of previews in apps/hosting/services.py
--   Hosting.Apps          references, quotas and creation of apps in apps/hosting/services.py
--   Hosting.Deployments   creation, upload, activation, failure and rollback of deployments in
--                         apps/hosting/services.py
--   Hosting.Deletion      `delete_app` of apps/hosting/services.py and the files that it deletes
--   Hosting.Lifecycle     the calls as steps of the whole state, and what they keep
--   Hosting.Serve         the cache and the choice of files of apps/hosting/serve.py
--   Hosting.Tokens        apps/hosting/deploy_tokens.py
--   Hosting.Hosts         apps/hosting/hosts.py and apps/hosting/public_urls.py
--   Actions.Values        the JSON values of rules, events and envelopes
--   Actions.Rows          apps/actions/models.py: rules, the outbox, attempts
--   Actions.Redaction     apps/actions/secret_redaction.py
--   Actions.Envelope      apps/actions/envelope.py and event_log.py
--   Actions.Registry      apps/actions/registry.py
--   Actions.Email         apps/actions/email_service.py
--   Actions.Emit          apps/actions/emit.py
--   Actions.Webhook       apps/actions/handlers/webhook.py
--   Actions.Backoff       apps/actions/webhook_retry.py
--   Actions.Delivery      apps/actions/delivery.py: the two transactions of one delivery
--   Actions.Perform       what a delivery sends, and the row after an answer
--   Actions.Claims        claims and leases in apps/actions/delivery.py
--   Actions.Batch         `retry_pending_webhooks` of apps/actions/delivery.py: the loop for one worker
--                         and for dry runs, and its steps with any number of workers (Batch.Pool)
--   Actions.Retention     apps/actions/retention.py, with the purge of old runs in scheduled_jobs.py
--   Actions.Outbox        all transactions on the outbox as steps, by any number of workers
--   Authapi.Jwks          apps/authapi/jwks_client.py
--   Config.ClientIp       config/client_ip.py
--   Config.TaskLock       config/task_lock.py, with the workers that share a lock
--   Tests                 a storage in memory, a site, and runs on them
--
-- A handler of services.py is a function from the database (and the files, and the serving cache)
-- to a result; a `HostingError` is the `err` of its code, and a transaction that raises leaves the
-- database as it was. Objects that a caller has read are arguments. `Lifecycle.Reachable.Step` has
-- one case per handler, with the objects read from the same state; concurrent transactions on the
-- same row are not modelled, nor is the unique-constraint race of two equal names.
--
-- An event is emitted into the outbox, one row for each rule that matches and one for the mail
-- service. A delivery of a row has two transactions, with the request in between; what the request
-- leads to is an argument. `Outbox.Move` has one case per transaction, so that a `Run` is any
-- interleaving of workers; a `Flight` is what a worker remembers between its two transactions.
--
-- Parameters: `Storage` is Django's `default_storage`, with the documented behaviour of `save`,
-- `delete` and of listing a directory as laws; `Secrets` is `secrets.choice`; `Unicode` is `str.lower`
-- and the decimal digits, fixed on ASCII alone; `Site` holds the settings, `tarfile.open` (as a
-- function from the bytes to the members, or none where it raises) and the text of a UUID; primary
-- keys and the time are arguments. A call reads the clock once. SHA-256 and the secret of a token
-- are arguments too, and so are the transport of webhooks with its answer, the UUID and the text of
-- the time of an event, and `str` of a value that is no text. Where NULL stands in the order of
-- claims is an argument, and so are the rows that other transactions have locked. `Addresses` is the
-- module `ipaddress`; `Redis` is the server of the task lock, with what it documents of `GET`,
-- `SET NX EX` and `DEL` as laws; what a fetch of the signing keys answers is a function of the
-- attempt.
--
-- Bounds: the loop that draws slugs makes at most 32 rounds, as in the code. Deleting below an S3
-- prefix follows the listing of the storage to a `depth`; on a file system there is no such bound.
-- The loop of `retry_pending_webhooks` for one worker has one turn more than its batch has rows: each
-- turn that goes on has processed one. The loop that purges a table has one turn more than the table has keys.
-- All other functions are total.
--
-- Not modelled: views, serializers, metrics, the admin, the middleware, the authentication of
-- requests; of the actions app the resolution of addresses, the transport and the signature of
-- webhooks, scheduled jobs (but for their purge), and the deadline of the pool of
-- `retry_pending_webhooks`: in `Batch.Pool` a delivery may return any row, at any time, since
-- `Outbox.Move` covers its transactions. The hosting app records
-- its calls of `emit_event_if_rules` and of `upsert_hosting_oauth_redirect` in their order. Also
-- left are settings and their parsing, archives whose member list cannot be read, `int` of more
-- than 4300 digits, and logging.
mod Base
pub mod Hosting
pub mod Actions
pub mod Authapi
pub mod Config
mod Tests
