-- ===== src/Tests.antt =====
-- The theorems at concrete inputs, and runs of the definitions.
mod Pipe
mod Frames
mod Machine
mod Host
mod Pidfiles
mod Daemons
mod Runs
mod Clients
mod Backoffs
mod Sockets
mod Queues
mod Foreign
mod Sessions
mod Claimants
mod Binders
mod Instances
mod Refinement
mod Programs
mod Recoveries
mod Departures
