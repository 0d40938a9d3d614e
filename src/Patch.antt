-- ===== src/Patch.antt =====
-- patch.py: the version guard, the connection strings, and the monkey-patch.
pub mod Version
pub mod Url
pub mod Hooks
pub mod Install
pub mod Tests
