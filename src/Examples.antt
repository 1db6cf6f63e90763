-- ===== src/Examples.antt =====
-- The theorems at concrete inputs: a server over a small file system in memory, and a client of two
-- servers that answer in a fixed way.
mod Reused
mod Servers
mod Storage
mod Paths
mod Remote
mod Start
mod Link
mod System
mod Lifetime
mod Data
mod Moving
mod Codes
mod Placement
mod Search
mod Folders
mod Cbfs
mod Threads
