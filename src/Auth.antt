-- ===== src/Auth.antt =====
-- Authorization: the package auth/ of the program.
pub mod Scopes
pub mod TokenStore
pub mod Provider
