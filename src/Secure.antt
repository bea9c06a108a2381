-- ===== src/Secure.antt =====
-- boot/secure: SHA-512 and the check of the kernel image's signature.
pub mod Sha512
pub mod Constants
pub mod Stream
pub mod Update
pub mod Hash
pub mod Standard
pub mod Verify
pub mod Check
mod Tests
