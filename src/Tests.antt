-- ===== src/Tests.antt =====
-- The theorems at concrete inputs.
mod Bits
mod Log
mod Net
mod Queries
mod Samples
mod Store
mod Wire
mod Containers
mod Sessions
mod Requests
mod Children
mod Histories
