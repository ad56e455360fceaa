-- ===== src/Lib.antt =====
-- OmniaNote: field notes with photos, kept by accounts with locations, folders and spots. A NestJS
-- server (apps/api) with Postgres, Redis, an S3 store and Meilisearch; a React app (apps/mobile) that
-- captures offline and synchronises; and the tiers and schemas that both share (packages/shared).
--
-- Parts and files, with the names of the code in the spelling of this library (inviteTeammate is
-- `invite_teammate`):
--   Prelude        lists as tables: search, count, select, insert, update and delete of rows; texts
--   Http           handlers as state passing: an exception keeps what was written before it
--   Shared         packages/shared/src: enums.ts, tiers.ts, schemas
--   World          the rows of apps/api/prisma/schema.prisma, and the whole state of the server
--   Redis          apps/api/src/common/redis/redis.service.ts
--   Notifications  apps/api/src/notifications/notification.service.ts, and what its escaping does
--   Auth           apps/api/src/auth: sessions, sign-in, challenges, enrollment of a second factor,
--                  the controller, and the guard for platform admins
--   Team           apps/api/src/team: the service and the controller
--   Locations      apps/api/src/locations: the service and the controller
--   Storage        apps/api/src/storage/storage.service.ts
--   Search         apps/api/src/search/search.service.ts
--   Items          apps/api/src/items: the service, and the requests of the controller
--   Admin          apps/api/src/admin: the overview and the lists, behind their guard; the pages of
--                  errors that apps/api/public/admin/admin.js follows
--   Common         apps/api/src/common: the error filter and the activity interceptor
--   Server         apps/api/src/app.module.ts: a request through interceptor, handler and error filter,
--                  and sequences of requests
--   Mobile         apps/mobile/src/lib: outboxDb.ts, syncQueue.ts, apiClient.ts, tokenStore.ts,
--                  auth.ts (Account), tier.ts, dictation.ts; of pages, the search box (SearchBox), the
--                  note (NotePage), the item (ItemPage), the inbox (Inbox), the settings
--                  (Settings), the field of tags (TagsField) and what the pages offer (Offers)
--   Tests          a small state, runs on it, and the theorems applied to it
-- The services share the state `World`: Team issues the tokens of Auth and sends the mails of
-- Notifications, Items checks locations of Locations, deletes objects of Storage and keeps the index
-- of Search, and Auth keeps its challenges in Redis.
--
-- Server puts the controllers together: a request stamps the activity of its user, runs the handler, and
-- is logged if it ends in an error of status 500. Its invariants are stated on rows alone, with a frame
-- for each operation that does not touch them.
--
-- A request runs to its end before the next one: interleaved requests are not modelled. A uuid, a
-- random token and a digest are natural numbers; `update_first` and `delete_first` are the queries by
-- a unique key. The random values of a request are the argument `Draws`, the clock is a field of the
-- state that operations read. argon2, sha256, JWT, TOTP and AES are the parameter `Crypto`, and the
-- query of Meilisearch is the parameter `Engine`; whether Meilisearch and Resend succeed is a field of
-- the state. Numbers of JavaScript are exact natural numbers. The order of texts by name is a
-- parameter of the functions that sort by it. Rows of equal time keep the order of their table, which the
-- database leaves open. Rows are given whole where a query selects some of their fields.
--
-- The server has an entry of the queue in full once it was created and its file, if one was asked for, was
-- uploaded and confirmed; what the server has is kept beside the store for the theorems alone.
--
-- The pages are records of their state with one function for each handler up to its await and one for
-- each answer; step relations put them in any order. What is captured by a handler across an await is
-- a record of its own.
--
-- The loop of the sync queue is on fuel, one unit for each entry tried; `none` means that it ran out.
-- The answers of the network, and what is captured meanwhile, are arguments of each round. The pages of
-- errors are on fuel too, one unit for each page, and end in `none` as well if it runs out.
--
-- Not modelled: the pipes that apply the schemas to requests, the schemas of items, the check of
-- the access token, the health checks, the configuration, the S3 client, the start-up backfill of
-- the index, calls of the app that share a refresh in flight, two tabs that compete for the lock
-- of the queue, the other pages (capture, sign-in), and what the React views show.
pub mod Prelude
pub mod Http
pub mod Shared
pub mod World
pub mod Redis
pub mod Notifications
pub mod Auth
pub mod Team
pub mod Locations
pub mod Storage
pub mod Search
pub mod Items
pub mod Server
pub mod Mobile
pub mod Admin
pub mod Common
pub mod Tests
