-- ===== src/Tests.antt =====
-- The theorems at concrete data, and runs of the program.
mod Bench
mod Juju
mod Dispatch
mod Clients
mod Operations
mod Urls
mod Objects
mod Hosts
mod Controllers
mod Answers
mod Devices
mod Server
mod Networks
mod Tags
mod Simple
mod Ranges
mod Registry
