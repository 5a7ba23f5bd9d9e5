-- ===== src/Rpc.antt =====
-- apps/pkg/geeRPC: how a call of the Logic service finds its server.
pub mod Ring
pub mod Discovery
pub mod Registry
pub mod Codec
pub mod Client
pub mod Dial
pub mod XClient
pub mod Service
pub mod Server
pub mod RoundTrip
pub mod Interceptors
pub mod Handling
