-- ===== src/Lib.antt =====
-- The core logic of the Zudue API (TypeScript, NestJS, under src/): money in, the call lifecycle, the
-- sweeps of the money lifecycle, the realtime event source, the socket gateway, the profiles of users,
-- their uploads and links, pushes, the services of fans and partners, the admin routes, the guards
-- of requests, and the scripts of the operator.
--
-- How the parts interact. A request passes ThrottleGuard (src/throttle/throttle.guard.ts) and JwtGuard
-- (src/auth/jwt.guard.ts). Its handler runs units of work through DatabaseService
-- (src/db/database.service.ts), each one transaction with the identity of the caller set first, and
-- calls the providers of payments, of pushes and of credentials. The sweeps of JobsService
-- (src/jobs/jobs.module.ts) do the same as the service role. A change of a call reaches clients through
-- the trigger of migrations/0102_call_events_notify.sql, PgNotifySource
-- (src/realtime/pg-notify.source.ts) and the socket gateway.
--
-- Which file models what.
--   Base                    Boolean tests, options and lists that all modules share.
--   Text                    functions on texts; Splitting cuts a text at a separator.
--   Json                    what JSON.parse returns, with the reads ?. and ?? that handlers make of it.
--   Effect                  handlers as functions of an environment and of the history of requests;
--                           Effect/Requests lists the requests and the rows that answer them, with
--                           the SQL statements in Effect/Statements,
--                           Effect/Database is src/db/database.service.ts, Effect/History says which
--                           transaction is open and which writes were rolled back, Effect/Aborted which writes
--                           PostgreSQL keeps where a statement failed, Effect/Rules lifts a
--                           property of the history through a handler.
--   Realtime                Types is src/realtime/realtime.types.ts, Notification is parseNotification and
--                           Source is the class PgNotifySource of src/realtime/pg-notify.source.ts. One
--                           event is one callback up to its next await; a run is a list of events in any
--                           order. Health, Generations and Backoff hold the proofs. Gateway is
--                           RealtimeGateway of src/realtime/realtime.gateway.ts over the interface of
--                           Socket: Handshake holds the upgrade, the frames and the authentication,
--                           Delivery what is sent, Events the callbacks in any order, Run the runs with the
--                           verifier, Shutdown attach, destroy and drain with RealtimeService of
--                           src/realtime/realtime.module.ts; Teardown, Bounds, Registry, Entries, Quiet,
--                           Still, Kept, Admission, Promise, Sound, Joining and Fanout hold the proofs on
--                           sockets, Shutdown/Drained, Doors and Ended those on the end.
--   Wallet                  Topup is createTopup and getBalance, Webhook is handleWebhook of
--                           src/wallet/wallet.service.ts with verifyWebhookSignature of
--                           src/payments/razorpay.provider.ts.
--   Jobs                    the sweeps of src/jobs/jobs.module.ts, and deleteUser of
--                           src/identity/supabase-admin.provider.ts; Schedule is how the service starts,
--                           ends and reports its jobs, and Order, Isolation, Refunds and Deletions hold the
--                           proofs on the sweeps.
--   Calls                   CallsService of src/calls/calls.module.ts; Missed is markMissed; Announcements,
--                           Ends, Refusals and Access hold the proofs.
--   Identity                LIFECYCLE_SQL, createProfile, updateProfile and updatePartnerProfile of
--                           src/identity/identity.module.ts; States, Updates and Signup hold the proofs.
--   Storage                 src/storage: uploadUrl and getUploadUrl; Media is toPublicMediaUrl, Keys holds
--                           the proofs on uploads.
--   Discovery               byHandle and partner of src/discovery/discovery.module.ts; Links holds the proof.
--   Admin                   AdminGuard of src/admin/admin.guard.ts and a route behind it; Finance,
--                           Moderation, People and Settings are the POST routes of the modules
--                           src/admin/admin-*.module.ts, Arguments what they make of a value of the body,
--                           and Access holds the proof.
--   Push                    src/push: registerToken and the pushes, Senders is FCM and OneSignal; Reports
--                           and Pruning hold the proofs on dead tokens.
--   Services                the handlers behind JwtGuard that change data, one module for each controller:
--                           Messaging, Availability, Catalog, Shoutouts, Trust, Earnings, Notifications,
--                           Onboarding (src/identity/identity.module.ts) and Booking
--                           (src/calls/calls.module.ts); Caller holds the proofs of as whom they write.
--   Scripts                 scripts/migrate.mjs (Migrate), scripts/db-doctor.mjs (Doctor) and
--                           scripts/make-admin.mjs (Admins) over the interface of PostgreSQL in Ledger;
--                           Migrate/Once, Again, Doctor/Names, Verdict, Deploy and Admins/Grants
--                           hold the proofs.
--   Config                  src/config/env.ts; Loaded holds the proof.
--   Auth, Throttle          src/auth/jwt.guard.ts and src/throttle/throttle.guard.ts.
--   Tests                   the theorems at concrete inputs.
--
-- How the model is made. The database, Razorpay, GoTrue and the push service are the environment, an
-- argument of every handler: it answers or fails each request as it likes, with the whole history in
-- view, so a theorem over all environments covers every answer and every failure. A request that fails
-- is in the history too. drizzle's transaction is taken by its documentation: commit where the body
-- returns, rollback where it throws. A push that is not awaited is a request whose answer nobody reads.
-- JSON.parse, the HMAC, jwtVerify of jose and the answers of Redis are arguments. Paise are natural
-- numbers; rates are in ten-thousandths, as the column numeric(5,4) holds them, and Math.random() is in
-- thousandths, so rounding is exact where JavaScript rounds a double.
--
-- No function of the model takes fuel: loops run over the rows that a query returned, or over a list of
-- connections or of events.
--
-- Not modelled: read-only queries, logging, the wiring of the framework, the schema, and what BullMQ and
-- pg_cron do with a schedule. Of what is modelled these parts are left out: the label and the message of
-- a row of audit_log in forEachId; the text of the key of the throttle, whose count is an argument; the
-- end of a socket that is no request of the gateway, where nobody else listens; max_per_user 0, with which
-- the loop of the eviction would not end; in scripts/migrate.mjs failures of the queries before the loop
-- over the files, and in scripts/db-doctor.mjs a missing URL. In expireWindows a caught failure of the
-- notification leaves the transaction as it is, where PostgreSQL undoes it as a whole; Effect/Aborted
-- models that for the signup.
pub mod Base
pub mod Json
pub mod Text
pub mod Effect
pub mod Realtime
pub mod Wallet
pub mod Jobs
pub mod Calls
pub mod Auth
pub mod Storage
pub mod Identity
pub mod Discovery
pub mod Admin
pub mod Push
pub mod Services
pub mod Throttle
pub mod Scripts
pub mod Config
mod Tests
