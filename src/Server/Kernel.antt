-- ===== src/Server/Kernel.antt =====
-- The handlers of IMServer/CKernel.cpp, one module for each group.
pub mod Info
pub mod Account
pub mod Chat
pub mod Friends
pub mod Dispatch
