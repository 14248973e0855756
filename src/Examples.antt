-- ===== src/Examples.antt =====
-- Runs of the program's functions on small inputs, and the theorems at concrete arguments.
mod Data
mod Parsing
mod Hosts
mod Commands
mod Serving
mod Trusting
mod Calls
mod Dialing
mod Pinging
