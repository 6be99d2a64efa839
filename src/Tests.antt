-- ===== src/Tests.antt =====
-- The theorems at concrete inputs, and runs of the definitions.
mod Data
mod Crypto
mod Store
mod Limits
mod Pairing
mod Http
mod Session
mod Control
mod Service
