-- ===== src/Crypto.antt =====
-- pc-service/src/wol_unlock/crypto: the encodings, the signed byte strings, and their verification.
-- SHA-256 and Ed25519 are those of hashlib and of the cryptography package.
pub mod Base64
pub mod Canonical
pub mod Verify
