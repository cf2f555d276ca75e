-- ===== src/Tests.antt =====
-- The library's theorems at concrete inputs.
mod Fixtures
mod Lists
mod Sender
mod Receiver
mod Together
mod Network
mod Transfers
mod Start
