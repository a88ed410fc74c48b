-- ===== src/Tests.antt =====
-- The theorems at concrete inputs, and runs of the models.
mod Records
mod Delivery
mod Device
mod Jobs
mod Scans
mod Parsers
mod Loops
mod Pages
