-- ===== src/Tunnel.antt =====
-- pkg/tunnel: the proxy that carries local connections and DNS queries over SSH.
pub mod Socks
pub mod Requests
pub mod Handshake
pub mod Dns
pub mod Answers
pub mod Prefixed
pub mod Registry
pub mod Closing
pub mod Config
pub mod Manager
pub mod Stopping
pub mod Overtaking
