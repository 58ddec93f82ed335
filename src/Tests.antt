-- ===== src/Tests.antt =====
-- The theorems at concrete inputs.
mod Code
mod Build
mod Plugins
mod Protocols
mod Compression
mod Rendering
mod Schematics
mod Sessions
mod Streams
