-- ===== src/Network.antt =====
-- The networks of the client, IMClient/Net and IMClient/Mediator: how they are opened and closed,
-- and the two that the client does not use, TcpServer and Udp.
pub mod Sockets
pub mod Lifecycle
pub mod Closing
pub mod TcpServer
pub mod Echo
pub mod Udp
pub mod Mediators
pub mod Twice
mod Examples
