-- ===== src/Tests.antt =====
-- The other modules at concrete packets, buffers and command lines.
mod Hash
mod Headers
mod Selection
mod Packet
mod Settings
mod Logger
mod Probe
mod Netcon
mod Config
mod Sockets
mod Filter
mod Startup
