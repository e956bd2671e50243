-- ===== src/Protocol.antt =====
-- internal/protocol: the clipboard protocol, its server and its client.
pub mod Header
pub mod Desktop
pub mod Server
pub mod Listener
pub mod Loop
pub mod Token
pub mod Client
pub mod Loopback
mod Examples
