-- ===== src/Completion.antt =====
-- internal/command/hosts.go: the completion of hosts from the local SSH files.
pub mod Syntax
pub mod Paths
pub mod Reading
pub mod Matching
pub mod Sets
pub mod Rules
pub mod Origins
pub mod Visits
pub mod Coverage
pub mod Known
pub mod Safe
pub mod Quoted
pub mod Order
pub mod Offers
mod Examples
