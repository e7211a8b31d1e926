-- ===== src/Gateway.antt =====
-- gatewayServer: client sessions and the routes between clients and backend services.
pub mod ReturnRoute
pub mod ClientSession
