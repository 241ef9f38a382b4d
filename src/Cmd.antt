-- ===== src/Cmd.antt =====
-- The programs under cmd/.
pub mod GeoServer
pub mod Arguments
pub mod Programs
pub mod RdapClient
pub mod GeoClient
pub mod LocalClient
pub mod Servers
