-- ===== src/Fs.antt =====
-- src/fs: the types of vfs.rs, the memory file system of ramfs.rs, paths and the mount table.
pub mod Vfs
pub mod RamFs
pub mod Walk
pub mod Mount
