-- ===== src/Auth.antt =====
-- src/auth/: login, refresh tokens and their rotation, and the guards of the routes.
pub mod Table
pub mod Memory
pub mod Service
pub mod Family
pub mod Rotation
pub mod Reuse
pub mod Chain
pub mod Open
