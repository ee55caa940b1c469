-- ===== src/Proxy.antt =====
-- proxy/blossom: the service in front of the storage nodes.
pub mod Placement
pub mod Upload
pub mod RateLimit
pub mod Token
pub mod Access
pub mod Admin
pub mod Client
pub mod Registry
pub mod World
pub mod Handler
pub mod Account
pub mod Put
pub mod Read
pub mod Remove
pub mod Purge
pub mod Gate
pub mod Durable
