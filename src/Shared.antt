-- ===== src/Shared.antt =====
-- The helpers that the applications share (packages/shared/src).
pub mod Knowledge
pub mod Base32
pub mod Digits
pub mod Cnj
pub mod CpfCnpj
pub mod Totp
mod Tests
