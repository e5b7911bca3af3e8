-- ===== src/Collector.antt =====
-- collector/, the service in Go that the page is fed by: what it keeps of every connection, and what it stores.
pub mod Ring
pub mod Stats
pub mod Laws
pub mod Rows
pub mod Store
pub mod Feed
pub mod Tracker
pub mod Hub
mod Tests
