-- ===== src/Lib.antt =====
-- Eventify: the booking API (Express, Prisma over PostgreSQL, Redis, BullMQ), modelled from its
-- TypeScript source.
--
-- A client books a seat of an event. `createBooking` (src/bookings/service.ts) counts and inserts in
-- one serializable transaction and tries again when the server aborts it; a full event puts the
-- booking on a waitlist. `cancelBooking` frees a seat and queues a job; the worker takes the job and
-- `promoteWaitlisted` (src/jobs/promote.ts) confirms the oldest waiting booking. `login` and
-- `rotateRefresh` (src/auth/service.ts) issue refresh tokens; a rotation replaces one by the next.
-- Events are read through a Redis cache that writes invalidate (src/events/events.service.ts), venues
-- have unique names (src/venues/service.ts), and a fixed-window counter limits requests
-- (src/infra/rate-limit.ts).
--
-- Files and what they model:
--   Common, Errors    shared helpers; src/http/HttpError.ts, results, and sequences of statements
--   Store             the tables (src/domain.ts, prisma/schema.prisma) and the job queues
--   Prisma, Memory    the database client as a record of calls and laws, and an instance for tests
--   Bookings          Repository and Service translate src/bookings/repository.ts and service.ts one
--                     function to one; Skeleton is src/bookings/create-booking.skeleton.ts; Rows says
--                     when a table is consistent; Policy, Capacity, Retry, Oversell, Cancel, Races
--                     and Draft prove
--   Jobs              Promote translates src/jobs, Worker src/worker.ts and src/infra/mailer.ts;
--                     Outcome, Accepted, Handover and Mail prove. Demo is scripts/waitlist-demo.ts;
--                     Shown, Seats, Walk and Ends prove
--   System            the interleavings of all writers of the bookings table
--   Auth              Service translates src/auth/service.ts and the refresh tokens of tokens.ts;
--                     Table is what they use of the database; Family, Rotation, Reuse, Chain and
--                     Open prove
--   Events            Repository and Service translate src/events/repository.ts and
--                     events.service.ts; Cache and Table are what they use of Redis and Prisma;
--                     Fresh, Reads, Lists, Guard, Modify, Writes, Creation, Order, Paging, Runs
--                     and Stale prove; Flights is the map of running fetches, by itself; Memory is
--                     an instance for tests
--   Infra             RateLimit translates src/infra/rate-limit.ts; Counters is what it uses of
--                     Redis; Window proves
--   Venues            Service translates src/venues/service.ts and repository.ts; Names, Changes
--                     prove
--   Seed              Script translates prisma/seed.ts; Upserts is what it uses of Prisma;
--                     Settles, Again prove; Memory is an instance for tests
--   Http              Respond is the error handler of src/app.ts, Access is
--                     src/auth/middleware.ts, Validate src/middleware/validate.ts, Cookies and
--                     Sessions src/auth/controller.ts; Bookings, Events, Venues and Reserve
--                     translate the controllers of src/bookings, src/events and src/venues with
--                     their routes; Guarded, Rights, Writers, Openings, Jar, Renewal and Throttle
--                     prove
--   Tests             runs on small tables, and each theorem at one of them
--
-- How the code corresponds: an async function is an `Action`, a function from the store to a result
-- and a store; `await` in sequence is a do block, `throw` an error value, an HttpError or another
-- error object. A transaction is a parameter with three laws: a body that returns commits, one that
-- throws leaves the store, and the server may abort it, whose error is then an argument. Overlapping
-- calls are explicit: a call is split where another may act, and the second part takes what the first
-- read as an argument. Ids of rows are only compared, so they are numbers; the id in the path of an
-- event, which is also the key of its cache entry, and of a booking to read or cancel is a text.
--
-- Fuel: `createBooking` has eight attempts, which is the bound of the source. The loop of
-- `revokeFamily` has no bound in the source; it gets one round for each token and one more, which is
-- enough where successors are made later than what they replace.
--
-- Not modelled: Zod schemas and the wiring of the Express routers, declarations in the languages of
-- those libraries, beyond the routes named above; reads of events that join a running fetch, whose map
-- is modelled by itself; log lines, connections and the OpenAPI document, which keep no state of the
-- program.
pub mod Common
pub mod Errors
pub mod Store
pub mod Prisma
pub mod Bookings
pub mod Jobs
pub mod Auth
pub mod Events
pub mod Infra
pub mod Venues
pub mod Http
pub mod Seed
pub mod System
pub mod Memory
mod Tests
