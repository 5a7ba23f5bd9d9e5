-- ===== src/Agent.antt =====
-- apps/agent: the limit on the questions of a user, the memory of a session, and the errors of tools.
pub mod RateLimit
pub mod Memory
pub mod SafeTools
pub mod Schedule
pub mod History
pub mod Engine
pub mod Trace
