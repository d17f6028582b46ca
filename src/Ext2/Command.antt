-- ===== src/Ext2/Command.antt =====
-- The commands of A4, less `main` and what is printed: A4/ext2_rm.c, A4/ext2_restore.c,
-- A4/ext2_mkdir.c, A4/ext2_ln.c and A4/ext2_cp.c.
pub mod Blocks
pub mod Remove
pub mod Restore
pub mod Create
pub mod Copy
pub mod Doom
pub mod Exists
