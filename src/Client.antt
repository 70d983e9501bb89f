-- ===== src/Client.antt =====
-- packages/api-client/workbench-client.mjs: the bootstrap of the workbench, where it comes from, and the login.
pub mod Bootstrap
pub mod Login
pub mod Load
pub mod Loaded
pub mod Session
pub mod Signed
pub mod Examples
