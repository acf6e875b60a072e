-- ===== src/Fat.antt =====
-- The FAT16 file system of src/fs/fat16.c: the disk and the state, the table of clusters, names, the
-- root directory, files, and the set-up of a volume.
pub mod Disk
pub mod Directory
pub mod File
pub mod Name
pub mod Table
pub mod Volume
mod Tests
