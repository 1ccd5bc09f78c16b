-- ===== src/Iocp.antt =====
-- The receiving side of IMServer/IOCPTcpServer: what a worker thread does with one completed
-- operation, and the packets that a connection's completions come to.
pub mod Completion
pub mod Framing
pub mod Safety
pub mod Life
mod Examples
