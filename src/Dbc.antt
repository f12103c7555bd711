-- ===== src/Dbc.antt =====
-- dbc/src: deterministic bitcoin commitments. A message is a commitment of the multi-protocol
-- scheme, of 32 bytes, and the two methods put it into an output of a transaction.
pub mod Outputs
pub mod Schemes
pub mod Proof
pub mod Anchor
pub mod Opret
pub mod Tapret
use bp_core.Base.{Bytes}

-- mpc::Commitment of the crate commit_verify.
abbrev pub Commitment : Type 0
Commitment = Bytes
