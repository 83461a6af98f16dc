-- ===== src/Switch.antt =====
-- src/mvls: the tool that shows the tables of Marvell LinkStreet switches.
pub mod Tables
pub mod Region
pub mod Fields
pub mod Devlink
pub mod Env
pub mod Discovery
pub mod Order
pub mod Entries
pub mod Show
pub mod Main
pub mod Json
