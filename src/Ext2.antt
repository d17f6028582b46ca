-- ===== src/Ext2.antt =====
-- The tools of A4 for an ext2 image: paths, the image with its bitmaps and directories, commands.
pub mod Outcome
pub mod Path
pub mod Bits
pub mod Image
pub mod Words
pub mod Bitmap
pub mod Directory
pub mod Command
pub mod Checker
mod Tests
