-- ===== src/Seed.antt =====
-- prisma/seed.ts: the script that fills the tables, and may run again.
pub mod Upserts
pub mod Script
pub mod Settles
pub mod Again
pub mod Memory
