-- ===== src/Signing.antt =====
-- AWS Signature Version 4: credentials/signer.rs.
pub mod Order
pub mod Encode
pub mod Key
pub mod AwsSign
pub mod Verify
pub mod Resign
pub mod Specification
pub mod Wrap
pub mod Presigned
