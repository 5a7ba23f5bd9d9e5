-- ===== src/Gateway.antt =====
-- apps/gateway/ws: the connections of one gateway and what it does with the messages on them.
pub mod Client
pub mod Pool
pub mod Chat
pub mod Downstream
pub mod Session
pub mod Relay
pub mod Receipt
pub mod UserApi
pub mod Router
