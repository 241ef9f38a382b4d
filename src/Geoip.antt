-- ===== src/Geoip.antt =====
-- The package geoip.
pub mod Source
pub mod Merge
pub mod Wire
pub mod Rpki
pub mod GeofeedCsv
pub mod Geofeed
pub mod Iptoasn
pub mod Anycast
pub mod Ipmap
pub mod Mmdb
pub mod NetInfo
pub mod Server
pub mod Disk
pub mod Loaders
pub mod Setup
