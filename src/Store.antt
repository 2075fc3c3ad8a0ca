-- ===== src/Store.antt =====
-- internal/store/store.go and internal/store/migrations/0001_init.sql. Each SQL statement of the
-- source is read as what it does to the tables; each method is an action over a connection.
pub mod Schema
pub mod Exec
pub mod Users
pub mod Rooms
pub mod Blocks
pub mod Messages
pub mod History
pub mod Notifications
pub mod Mentions
pub mod Maintenance
pub mod Faults
