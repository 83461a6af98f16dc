-- ===== src/Tool.antt =====
-- src/mdio: the command line tool, from the arguments to the programs that it sends.
pub mod Args
pub mod Device
pub mod Parse
pub mod Common
pub mod Status
pub mod Phy
pub mod Paged
pub mod Xrs
pub mod LinkStreet
pub mod Transport
pub mod Bus
pub mod Main
pub mod Access
pub mod Typed
pub mod Printing
