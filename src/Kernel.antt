-- ===== src/Kernel.antt =====
-- kernel/mdio-netlink.c: the in-kernel interpreter of MDIO programs.
pub mod Machine
pub mod Validate
pub mod Safety
pub mod Termination
pub mod Message
pub mod Runs
pub mod Command
