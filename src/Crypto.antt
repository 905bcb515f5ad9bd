-- ===== src/Crypto.antt =====
-- src/crypto.cpp and src/base64.cpp: base64, hexadecimal, HKDF, keys, signatures and AES-256-GCM
-- payloads, over the OpenSSL calls of Crypto/OpenSsl.
pub mod OpenSsl
pub mod Base64
pub mod Hex
pub mod Hkdf
pub mod Keys
pub mod Signature
pub mod Payload
