-- ===== src/Tests.antt =====
-- Runs of the definitions and the theorems at concrete inputs, and the unit tests of the program.
mod Adapter
mod Captures
mod CollectorTests
mod CoreTests
mod Data
mod EbpfTests
mod Files
mod Hosts
mod Options
mod Profiles
mod Queries
mod RenderTests
mod Repository
mod Kept
mod Sessions
mod Written
