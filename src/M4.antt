-- ===== src/M4.antt =====
-- The LIP 005 withdrawal messages: M3 (a bundle is proposed) and M4 (bundles are voted on).
pub mod Message
pub mod Parser
pub mod Scdb
pub mod Generate
pub mod Tests
