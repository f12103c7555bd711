-- ===== src/Lib.antt =====
-- A verification library of bp-core: Bitcoin consensus data, deterministic commitments in
-- transactions, and single-use seals.
--
-- The program. The crate consensus holds data types, consensus encoding, scripts, time locks and
-- weights; dbc puts commitments into transactions; seals closes single-use seals by transactions
-- with such commitments; a small crate joins them. Everything that goes over the wire passes
-- through the traits ConsensusEncode and ConsensusDecode of consensus/src/coding.rs: transactions
-- (tx.rs), headers (block.rs) and control blocks (taproot.rs) are encoded by them, the identifiers
-- and hashes are taken of the encodings, and the weights (weights.rs) predict their sizes. Scripts
-- (script.rs, segwit.rs, taproot.rs) are byte strings with a builder and tests. A commitment
-- (dbc/src) changes the script of the first OP_RETURN or the first Taproot output; an anchor
-- (anchor.rs) joins its proof with that of a multi-protocol tree; a witness
-- (seals/src/txout/witness.rs) closes seals if its transaction spends their outputs and the
-- commitment verifies.
--
-- The files. Base holds what all share: tests on native numbers, lists, signed integers, bits and
-- Base/Result, Rust's Result with a panic. Codec is coding.rs: a reader is the bytes not yet read,
-- a writer the bytes appended with the count returned, a result a value, an error value or a
-- panic. Codec/Ints, VarInt, Array and Newtypes hold the codecs of integers, lengths, sequences
-- and wrappers; Codec/Laws says what a codec promises (IsCodec) and how composed codecs keep it;
-- Codec/RoundTrip applies that; Codec/Exact is a sample of the library function that bounds
-- lengths. Tx and Tx/Encoding are the transactions with encode_tx and decode_tx, their proofs
-- below Tx/Encoding, Tx/Ids the identifiers txid, wtxid and ntxid, Tx/Texts and Tx/Hex the texts
-- of outpoints and of transactions. Block is the header, with its text in Block/Hex, Sats the
-- amounts of tx.rs with their division in Sats/Division, Weights weights.rs, Timelocks
-- timelocks.rs with a child per type and the texts in Timelocks/Texts. Taproot has LeafVer, Leaves
-- (the encoding of leaf versions), Parity, Hashes, OutputKey (tweaked keys, TapCode), XOnlyPk
-- (internal and output keys) and ControlBlock, the last with its codec. Script is script.rs with
-- the enum of opcodes.rs in Script/OpCodes and its constants in Script/Constants;
-- Script/Instructions reads the scripts built by push_opcode and push_slice with a reference
-- reader of Bitcoin scripts. Segwit is segwit.rs with the Taproot scripts and, in Segwit/Hashed,
-- hashtypes.rs, Sighash, Sighash/Signatures and Sighash/Strict are sigtypes.rs, and Pubkeys,
-- Pubkeys/Hex and Pubkeys/Strict pubkeys.rs. Strict and Serde are the two interfaces that the
-- hand-written strict encodings and serde forms write to; Serde/Outpoints and Serde/Witnesses are
-- such forms. Text holds the functions of Rust's strings and numbers that parsing uses, Text/Joins
-- the inverse of split, Text/Hex those of hexadecimal text with the error of tx.rs, Text/HexDigits
-- a sample of them. Dbc is dbc/src: Dbc/Opret and Dbc/Tapret are the two methods, with
-- embed_commit as embed_tx and its like and convolve_commit as convolve_tx and its like;
-- Dbc/Tapret/Texts has the bytes and texts of commitments; Dbc/Outputs is the first output that
-- passes a test; Dbc/Schemes is the interface of a commitment scheme with its laws (IsScheme),
-- which Dbc/Opret/Scheme and Dbc/Tapret/Scheme implement and Dbc/Anchor/Laws uses; Dbc/Proof and
-- Dbc/Anchor are proof.rs and anchor.rs, and Dbc/Anchor/Methods the trait Proof of both methods.
-- Seals is seals/src/txout: the seals in Seals, random blinding in Seals/Random, their texts in
-- Seals/Texts with the texts that the parser takes in Seals/Texts/Language, and Seals/Witness the
-- verification. Facade is src/bp.rs. Tests applies the theorems to concrete data.
--
-- Numbers. An unsigned integer is a native number, with % 2 ^ w where the code wraps; i32 is a
-- signed integer with its bit pattern. Weights are u32 in a release build, so they wrap. The
-- conversion to f32 is written out as rounding to 24 bits, ties to even. Parsing a number tests
-- each digit against the bound of the type.
--
-- Parameters. Confined::try_from of the crate amplify is an argument with the hypothesis
-- IsConfine: it accepts exactly the lengths within its bounds. SHA-256, RIPEMD-160, tagged
-- SHA-256, the size of TxIn in memory, the numbers that a random generator gives and the test of
-- x-only keys are arguments too, of which nothing or only what a theorem names is assumed. The
-- scalars and the tweak of secp256k1 are a record (Secp256k1) whose keys are of 32 bytes
-- (IsSecp256k1); the strict encoding of a commitment writes its fields in order and reads them
-- back (IsStrict, IsStrictRead), and its Base85 text reads back (Base85, IsBase85), and the typed
-- fields of strict_encoding read back what they wrote (Field, IsField); the formats of serde read
-- back what they wrote (Format, IsFormat); the multi-protocol tree of commit_verify is a record
-- (Mpc, IsMpc), and so is the verification of a proof (DbcProof), which returns without an error
-- exactly where committing again to the restored transaction gives the transaction and the proof
-- (IsVerifier); hexadecimal text reads back as the bytes it was made of (HexCodec, IsHex), the
-- text of a Txid reads back and is of digits (IsTxidText), and that of a point is the hexadecimal
-- text of its compressed form (IsPointText); signatures, points and x-only keys read back from
-- their bytes (IsSigCodec, IsPoints, IsXOnlyPoints). Vec::with_capacity panics above isize::MAX
-- bytes; running out of memory is not modelled.
--
-- Fuel. chunks_exact of a control block runs on fuel: the length of its input, enough since a
-- chunk takes 32 bytes; the standard library cuts without fuel. The reference reader of scripts
-- runs on the length of the script, enough since an instruction takes at least one byte. Printing
-- a number runs on 64 steps, enough since a digit at least halves a number below 2 ^ 64; that the
-- text reads back shows it. Every other loop is structural.
--
-- Not modelled: derived serde and strict encodings, the serde form of Taproot commitments, the
-- dummy values of types, Baid64 texts, secret seals (a hash of the crate commit_verify), the
-- hexadecimal text of leaf versions, the arithmetic of signatures and of the curve, reads of the
-- clock, letters beyond ASCII in to_lowercase, and errors of readers other than the end of the
-- input.
pub mod Base
pub mod Codec
pub mod Dbc
pub mod Text
pub mod Strict
pub mod Serde
pub mod Tx
pub mod Seals
pub mod Facade
pub mod Block
pub mod Sats
pub mod Timelocks
pub mod Weights
pub mod Taproot
pub mod Script
pub mod Segwit
pub mod Sighash
pub mod Pubkeys
pub mod Tests
