-- ===== src/Tests.antt =====
-- The theorems at concrete inputs.
pub mod Commands
pub mod Files
pub mod Stores
pub mod Hubs
pub mod Gateways
pub mod Naming
pub mod Actions
pub mod Sends
pub mod Clients
pub mod Lives
pub mod Served
pub mod Attachments
pub mod Trees
pub mod Configs
