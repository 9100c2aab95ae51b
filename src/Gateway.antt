-- ===== src/Gateway.antt =====
-- internal/gateway: the registry of the agents, and the login name read off a relayed session.
pub mod DbUser
pub mod Registry
