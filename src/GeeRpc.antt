-- ===== src/GeeRpc.antt =====
-- geerpc: the RPC framework.
pub mod Codec
pub mod Client
pub mod Registry
pub mod Discovery
pub mod Service
pub mod Server
pub mod Link
pub mod Debug
pub mod XClient
pub mod Options
pub mod Heartbeat
pub mod Dial
pub mod Gob
pub mod Listening
