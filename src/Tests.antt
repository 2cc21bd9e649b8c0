-- ===== src/Tests.antt =====
-- The theorems at concrete inputs, and runs of the code on small ones.
mod Buffers
mod Wire
mod Text
mod Packets
mod Replies
mod Servers
mod Executor
mod Catalog
mod Clients
mod Creates
mod Tasks
mod Threads
mod Network
mod Requests
