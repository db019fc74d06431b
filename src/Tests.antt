-- ===== src/Tests.antt =====
-- Runs of the services at concrete inputs: one lot with two slots, its manager, and two customers,
-- one with a card that is accepted and one with a card that is declined.
mod Data
mod Bookings
mod Scans
mod Visits
mod Jobs
mod Slots
mod Money
mod People
mod Lots
mod Chat
mod Requests
mod Accounts
mod Policies
