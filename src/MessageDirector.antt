-- ===== src/MessageDirector.antt =====
-- The routing of datagrams to subscribers (src/messagedirector).
pub mod Director
pub mod Subscriber
pub mod RoutingKey
pub mod Publish
pub mod Participant
mod Examples
