-- ===== src/Base.antt =====
-- zone_common/base: what the servers of a zone share.
pub mod Bytes
pub mod Buffer
pub mod Handshake
pub mod GatewayPlayer
pub mod Frame
pub mod ClientFrame
pub mod GateFrame
pub mod ClientControl
