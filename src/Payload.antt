-- ===== src/Payload.antt =====
-- src/payload.rs. `Mode` is the encryption mode and its texts, `Encryptor` the two cipher
-- operations on packets, over the cipher of the crate xsalsa20poly1305, which `Cipher` describes.
pub mod Mode
pub mod Cipher
pub mod SampleCipher
pub mod Encryptor
pub mod OpCode
mod Tests
