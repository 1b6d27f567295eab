-- ===== src/Maintenance/Table.antt =====
-- What the operations make of the finger table.
pub mod Calls
pub mod Walks
pub mod Rings
pub mod Joins
