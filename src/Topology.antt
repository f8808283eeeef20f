-- ===== src/Topology.antt =====
-- wiring_topology_manager/private/src: wtm.c, wtm_wadmin_tracker.c, wtm_wendpointlistener_tracker.c.
-- The state, the outside and the monad are in World, the operations in the modules below it.
pub mod World
pub mod Matching
pub mod Notify
pub mod Export
pub mod Import
pub mod Admins
pub mod Tracker
mod Tests
