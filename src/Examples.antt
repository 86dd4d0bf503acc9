-- ===== src/Examples.antt =====
-- A small world in which every hypothesis of the results holds, and runs of the code in it.
mod World
mod Runs
mod Services
mod Witnesses
mod Programs
mod Brokers
mod Streams
mod Consumers
