-- ===== src/Client.antt =====
-- The client of IMClient: the framing of Net/TcpClient, the kernel of ckernel.cpp with the windows
-- that it drives, and the forms that it takes its input from.
pub mod TcpClient
pub mod Reassembly
pub mod State
pub mod Received
pub mod Slots
pub mod Dispatching
pub mod Windows
pub mod Keeps
pub mod Sync
pub mod Order
pub mod Session
pub mod Silence
pub mod Forms
pub mod Examples
