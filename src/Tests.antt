-- ===== src/Tests.antt =====
-- Concrete devices and inputs, and each theorem applied to one of them.
pub mod Bus
mod Kernel
mod Access
mod Paged
mod Region
mod Start
mod Discovery
mod Json
mod Switch
mod Transport
mod Transfer
mod Status
mod MultiChip
mod Typed
mod Open
mod Main
mod Printing
