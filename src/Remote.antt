-- ===== src/Remote.antt =====
-- internal/remote: what is run on the remote machine.
pub mod Provision
pub mod Quote
pub mod Environment
mod Examples
