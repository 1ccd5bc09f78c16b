-- ===== src/Server.antt =====
-- The server of IMServer: the kernel of CKernel.cpp, which handles a received packet, over the
-- database access of MySQL/ and the sending side of IOCPTcpServer.
pub mod World
pub mod MySql
pub mod Connection
pub mod Sql
pub mod Tables
pub mod Kernel
pub mod Accounts
pub mod Frame
pub mod Rules
pub mod Framed
pub mod Registration
pub mod Sessions
pub mod Membership
pub mod Login
pub mod Dispatching
pub mod Chatting
pub mod Leaving
pub mod Friendship
pub mod Short
pub mod Online
pub mod Serving
pub mod Examples
