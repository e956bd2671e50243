-- ===== src/Session.antt =====
-- internal/session: the terminal session over a held SSH connection.
pub mod Tunnel
pub mod Establish
pub mod Run
pub mod Forward
pub mod Options
pub mod Args
pub mod Client
mod Examples
