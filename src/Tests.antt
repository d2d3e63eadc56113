-- ===== src/Tests.antt =====
-- Tests of the definitions, and an instance of each theorem at a concrete input.
mod Chunks
mod Checkpoints
mod Workers
mod Streams
mod Hosts
mod Engines
mod Probes
mod Sinks
mod Files
mod Tunnels
mod Managers
