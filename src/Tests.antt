-- ===== src/Tests.antt =====
-- Runs of the models at concrete data, and each theorem at an input that meets its hypotheses.
mod Service
mod Auth
mod Saving
mod Wire
mod Persistence
mod Status
mod Linking
mod Calls
mod Primitives
mod Toon
mod Schemas
mod Submit
mod Accounts
mod Results
mod Requests
