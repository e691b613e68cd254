-- ===== src/Witnesses.antt =====
-- Concrete inputs for the theorems of this library, one module for each part of the proxy.
mod Schedules
mod Credits
mod Names
mod Pools
mod Tokens
mod Flows
mod Handshakes
mod Connections
mod Tables
mod Meshes
mod Sockets
mod Mappings
mod Tunnels
mod Hubs
