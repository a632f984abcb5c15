-- ===== src/Sm.antt =====
-- daemon/sm.c, the State Manager: who is in the liveset, and who survives a fault.
pub mod Membership
pub mod Partition
pub mod Domain
pub mod Signals
pub mod Control
pub mod Fault
pub mod Join
pub mod Waits
pub mod Survival
pub mod View
pub mod Consistent
pub mod Handler
pub mod Start
pub mod Worker
