-- ===== src/Tests.antt =====
-- The theorems at concrete inputs.
mod Data
mod Lifecycles
mod Tables
mod Messages
mod Uploads
mod Signatures
mod Worlds
mod Handlers
mod Receiving
mod Admins
