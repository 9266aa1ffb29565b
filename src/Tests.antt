-- ===== src/Tests.antt =====
-- The theorems at concrete inputs.
mod Sessions
mod Endpoints
mod Syncs
mod Limits
mod Operations
mod Usage
mod Relays
mod Admins
mod Backups
mod Tunnels
mod Policies
mod Tokens
