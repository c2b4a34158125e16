-- ===== src/Tests.antt =====
-- Runs of the model on concrete inputs, and the theorems applied there.
mod Pool
mod Channels
mod Connections
mod Samples
mod Buffers
mod Parser
mod Server
mod Logging
mod Loops
mod Threads
mod Texts
mod Serving
mod Asynchronous
mod Watched
mod Pages
mod Addresses
mod Timers
mod Heads
mod Startup
