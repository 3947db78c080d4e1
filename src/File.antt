-- ===== src/File.antt =====
-- The files of the 9P tree.
pub mod Buffer
pub mod Modes
pub mod Errors
pub mod Snapshot
pub mod Setting
pub mod Input
pub mod Actions
pub mod Send
pub mod Live
pub mod Attachment
