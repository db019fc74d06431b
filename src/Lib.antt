-- ===== src/Lib.antt =====
-- A verification library of the Smart Parking Management System: the backend's rules for booking a
-- slot, entering, leaving and paying, for lots, accounts, policy documents and the assistant, as
-- functions on the database, the parts of the frontend that decide something, and what they guarantee.
--
-- Parts, and the files that model them (paths from the repository's root):
--   Schema, Schema/Status    backend/prisma/schema.prisma: the tables and the enums
--   Action                   a service call: a function from the database to a result and a database;
--                            `transaction` is `prisma.$transaction`, which undoes the writes of a
--                            call that throws
--   Environment              the clock, the settings and the generated ids that a call takes
--   Services                 backend/src/common/audit/audit.service.ts (log) and
--                            backend/src/common/notification/notification.service.ts (notify)
--   Tables                   the Prisma queries that several services make alike
--   Billing                  backend/src/modules/reservation/billing.util.ts and billing.service.ts
--   Reservations             backend/src/modules/reservation/reservation.service.ts
--   Checkpoint               backend/src/modules/checkpoint/checkpoint.service.ts
--   Monitoring               backend/src/modules/reservation/reservation-monitoring.service.ts
--   ParkingSlots             backend/src/modules/parking-slot/parking-slot.service.ts
--   Grid                     backend/src/modules/parking-lot/row-label.util.ts and buildSlotGrid,
--                            buildSlotGridNumbers of parking-lot.service.ts
--   Users                    backend/src/modules/users/users.service.ts; Users/Deletion: the deletion of
--                            accounts
--   Links                    the relations of backend/prisma/schema.prisma
--   Sweeps                   loops that cancel reservations one after the other, against the table
--   Floors, Lots             backend/src/modules/parking-lot/parking-lot.service.ts; Lots/Maps: also
--                            location.service.ts and maps.service.ts
--   Auth                     backend/src/modules/auth/auth.service.ts, guards/roles.guard.ts and
--                            strategies/jwt.strategy.ts
--   Policy                   backend/src/modules/policy/chunk-text.util.ts and policy.service.ts
--   Api                      the controllers of backend/src/modules, but for those of auth and assistant
--   Assistant                backend/src/modules/assistant; Assistant/Client:
--                            frontend/src/features/assistant/hooks.ts
--   Cards                    backend/src/common/validators and frontend/src/lib/card-form.ts
--   Pages                    frontend/src/middleware.ts, frontend/src/lib/jwt.ts and
--                            frontend/src/components/layout/nav-items.ts
--   SlotGrid                 frontend/src/features/parking-slots/components/slot-grid.tsx
--   Lifecycle                the specification: how a reservation may change, and when no slot is
--                            booked twice
--   System                   the calls that write reservations as the steps of one system
--   Tests                    runs at concrete inputs
--
-- The parts interact through the database alone. A booking (Reservations) writes a reservation and a
-- check-in code; a scan at the entrance (Checkpoint) uses the code, parks the vehicle and writes a
-- check-out code; a scan at the exit charges the price of the booking and the challans (Billing) and
-- frees the slot; the job (Monitoring) cancels bookings whose customer does not come, and extends or
-- penalises those that overstay; blocking a user (Users) cancels the user's bookings. Each call
-- is one step, and so is each round of the job's sweeps: that calls run one after the other is an
-- assumption, since the code locks rows in some transactions only. What two calls do whose queries and
-- writes interleave is not modelled, but for two: the sweep of no-shows may have read its row before, and
-- Monitoring/Overstay has a booking between the job's search for the next booking and its extension.
--
-- What stands for what: ids, tokens and users are numbers, since they are only compared; times are
-- milliseconds since the epoch, and one reading of the clock serves for all that a call makes; local
-- midnight is an input; money is in whole cents, where the code rounds to two places; texts are lists
-- of UTF-16 units. A table is a list, and a query for a unique key finds its first row. Where the code
-- subtracts in a comparison of times the other side is added to, since subtraction stops at 0.
--
-- Above the services stand the controllers (Api), each request behind its guards, and the assistant
-- (Assistant), whose tools call the same services; the chat in the browser reads the assistant's events.
--
-- Loops run over lists. The two loops of Grid that divide a number until it is 0 run on fuel: the
-- number itself is enough, since every round makes it smaller, and reading the result back gives the
-- number. The loop of Policy that cuts a text into chunks runs on fuel too: the length of the text and
-- one more is enough as long as the overlap is less than a chunk, since every round but the last moves
-- the start on. The stream of the assistant is the list of its chunks with the way in which it ended.
--
-- Parameters, for what the code takes from elsewhere: the hash of a password and its comparison
-- (bcrypt), the distance on the globe and the comparison of names that the database computes, the
-- answers of the maps provider, the likeness of two texts (the embedding model), the text of a PDF, what
-- the language model's stream brings, new ids and salts.
--
-- Not modelled: the routes of auth.controller.ts and assistant.controller.ts, but for `resume`; the stream
-- that the browser resumes after it has fetched the location; the idle timer of the assistant's stream, of
-- which only the outcome is an input; the titles and messages of notifications and the metadata of audit
-- entries; QR images and realtime messages, which are output only; the order of most query results; the body of a response
-- to a request and of a tool's result; the signing and the expiry of tokens in the backend, which are a
-- library's work; the checks of the request bodies by decorators, but for the two validators in Cards;
-- the system prompt of the assistant and the graph that runs it; the markup of the frontend's pages.
pub mod Prelude
pub mod Schema
pub mod Action
pub mod Environment
pub mod Services
pub mod Billing
pub mod Tables
pub mod Lifecycle
pub mod Sweeps
pub mod Reservations
pub mod Checkpoint
pub mod Monitoring
pub mod System
pub mod Users
pub mod Auth
pub mod ParkingSlots
pub mod Grid
pub mod Floors
pub mod Lots
pub mod Links
pub mod Policy
pub mod Api
pub mod Assistant
pub mod Cards
pub mod Pages
pub mod SlotGrid
pub mod Tests
