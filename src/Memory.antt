-- ===== src/Memory.antt =====
-- src/memory: the block bitmap, the physical pages, the kernel heap and the C memory routines.
pub mod Bitmap
pub mod Pmm
pub mod Paging
pub mod Bytes
pub mod Heap
mod Tests
