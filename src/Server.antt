-- ===== src/Server.antt =====
-- nport-server/src: the server, a module for each part.
pub mod Hostname
pub mod Hostnames
pub mod Forwarding
pub mod Stats
pub mod State
pub mod Registry
pub mod Env
pub mod Client
pub mod Msghandlers
pub mod PortServer
pub mod Forward
pub mod Config
pub mod Routing
pub mod App
pub mod Telemetry
pub mod Session
pub mod Site
