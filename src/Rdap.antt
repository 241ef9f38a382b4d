-- ===== src/Rdap.antt =====
-- The package rdap.
pub mod Wire
pub mod Bootstrap
pub mod Client
pub mod Tables
pub mod Vcard
pub mod Parse
pub mod Query
pub mod Server
