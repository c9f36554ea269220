-- ===== src/Stream.antt =====
-- agent/internal/diskstream and agent/internal/memstream: chunked images that are streamed on
-- demand, their headers and the resolver.
pub mod Words
pub mod Bitmap
pub mod Disk
pub mod DiskCodec
pub mod Geometry
pub mod Build
pub mod Resolver
pub mod Slices
pub mod Fetches
pub mod Integrity
pub mod Reads
pub mod Honest
pub mod Mem
pub mod MemCodec
pub mod Egress
pub mod Budget
pub mod Calls
pub mod Shared
pub mod Durable
pub mod Fills
pub mod Crashes
pub mod Examples
