-- ===== src/Crypto.antt =====
-- The authenticated encryption of gateway/internal/secretbox/secretbox.go (stored source
-- passwords) and gateway/internal/blobcodec/blobcodec.go (resource links). AES-256-GCM and base64
-- are packages of Go's library: an interface stands for them.
pub mod Aead
pub mod Secretbox
pub mod Blobcodec
