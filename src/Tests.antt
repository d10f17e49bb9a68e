-- ===== src/Tests.antt =====
-- The theorems at concrete inputs, and runs of the definitions.
mod Buffers
mod Sessions
mod Managers
mod Loops
mod Scripts
mod Programs
mod Gcobjs
mod Apps
mod Bindings
mod Decoders
