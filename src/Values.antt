-- ===== src/Values.antt =====
-- model/utility/src: the values, schemas and objects that statuses and data hold.
pub mod Number
pub mod Schema
pub mod StringRegistry
pub mod Layout
pub mod Objects
