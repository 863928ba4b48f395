-- ===== src/StateServer.antt =====
-- The state server of src/stateserver: the objects that it keeps alive.
pub mod Messages
pub mod FieldMap
pub mod ZoneObjects
pub mod DistributedObject
pub mod Server
mod Examples
