-- ===== src/Logic.antt =====
-- apps/logic: the message store, the consumer of uploads and the RPC service.
pub mod Messages
pub mod Upload
pub mod Delivery
pub mod FanOut
pub mod Groups
pub mod Redelivery
pub mod Service
pub mod Users
pub mod Unread
pub mod Status
pub mod Run
