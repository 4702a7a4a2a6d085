-- ===== src/Tests.antt =====
-- The theorems at concrete states of the program.
mod Journal
mod Buffers
mod Text
mod Tasks
mod Spaces
mod Commands
mod Waiting
mod Files
mod Directories
mod Disks
