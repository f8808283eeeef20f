-- ===== src/RemoteServiceAdmin.antt =====
-- remote_service_admin_inaetics/rsa and remote_service_admin: services are exported and imported over
-- wires.
pub mod Description
pub mod Exporting
pub mod Importing
pub mod World
pub mod Wires
pub mod Removing
pub mod Services
pub mod Requests
pub mod Trackers
pub mod Tests
