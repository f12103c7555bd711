-- ===== src/Taproot.antt =====
-- consensus/src/taproot.rs: leaf versions, parity, hashes of the script tree and control blocks, with
-- the codec of control blocks of consensus/src/coding.rs.
pub mod LeafVer
pub mod Parity
pub mod Hashes
pub mod OutputKey
pub mod XOnlyPk
pub mod Leaves
pub mod ControlBlock
