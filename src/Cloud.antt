-- ===== src/Cloud.antt =====
-- minicloud_rs: the companion cloud.
pub mod Hub
mod Tests
