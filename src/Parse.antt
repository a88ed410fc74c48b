-- ===== src/Parse.antt =====
-- internal/collect/assess_parse.go: what the collectors read out of files and the output of commands.
pub mod Text
pub mod Number
pub mod Options
pub mod Versions
pub mod Highest
pub mod Jobs
pub mod Routes
pub mod Neighbors
pub mod Wifi
pub mod System
pub mod Placed
pub mod Carriage
pub mod Tasks
pub mod Software
pub mod Ports
