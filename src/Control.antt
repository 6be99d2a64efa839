-- ===== src/Control.antt =====
-- pc-service/src/wol_unlock/control: the socket by which the operator's CLI reaches the service.
pub mod Devices
pub mod Commands
pub mod Client
pub mod Dispatch
pub mod Lifecycle
pub mod Events
pub mod Serve
