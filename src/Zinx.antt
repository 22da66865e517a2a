-- ===== src/Zinx.antt =====
-- myzinx: the TCP message server.
pub mod Message
pub mod DataPack
pub mod Connection
pub mod MsgHandler
pub mod Server
pub mod Demo
