-- ===== src/Server/Accounts.antt =====
-- What the handlers of IMServer/CKernel.cpp promise about accounts: what they rely on of the table
-- `t_user` behind the MySQL client library, and registration and login on a plain list of accounts.
mod Table
mod Spec
mod Distinctness
pub mod Sample
unfoldable pub use Table.*
unfoldable pub use Spec.*
pub use Distinctness.*
