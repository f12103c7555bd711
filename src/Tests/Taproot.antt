-- ===== src/Tests/Taproot.antt =====
-- Examples of the theorems on the parts of Taproot.
use bp_core.Base.{◌≡◌, ◌+◌, ◌++◌, [], ◌∷◌, refl, arith, Bytes, Bool, true, ◌==◌}
use bp_core.Codec.{ok}
use bp_core.Codec.Ints.{encode_u8}
use bp_core.Codec.Exact.{exact, exact-IsConfine}
use bp_core.Taproot.LeafVer
use bp_core.Taproot.LeafVer.{
  LeafVer, tap_script, future, IsLeafVer, taproot_annex_prefix, from_consensus_u8_lem,
}
use bp_core.Taproot.Parity
use bp_core.Taproot.Parity.{even, odd, parity_bits}
use bp_core.Taproot.ControlBlock.{ControlBlock, encode_control_block, decode_control_block}
use bp_core.Taproot.ControlBlock.Layout.{
  IsControlBlock, key_and_branch, decode_control_block_layout,
  decode_control_block-encode_control_block,
}
use bp_core.Taproot.ControlBlock.Branches.{Decoded, decode_control_block_lem}
use bp_core.Tests.{sevens, sevens-IsBytes, sevens-AreBytes}

-- In the examples the keys are the texts that begin with 7.
abbrev starts_with_7 : Bytes → Bool
starts_with_7 [] = true
starts_with_7 (b ∷ bs) = b == 7

abbrev leaf_block : ControlBlock
leaf_block = record {
  leaf_version = tap_script;
  output_key_parity = odd;
  internal_pk = sevens 32;
  merkle_branch = sevens 32 ∷ [];
}

leaf_block-IsControlBlock : IsControlBlock starts_with_7 leaf_block
leaf_block-IsControlBlock = record {
  leaf_version = tt;
  internal_pk = sevens-IsBytes 32;
  is_key = refl;
  merkle_branch = (sevens-IsBytes 32, tt);
  short = omega arith;
}

decode_control_block_layout_example :
    decode_control_block exact starts_with_7 (
      (encode_u8 (LeafVer.to_consensus_u8 tap_script + Parity.to_consensus_u8 odd)).bytes
      ++ key_and_branch leaf_block)
    ≡ ok (leaf_block, [])
decode_control_block_layout_example =
    decode_control_block_layout exact-IsConfine starts_with_7 leaf_block leaf_block-IsControlBlock

decode_control_block-encode_control_block_example :
    decode_control_block exact starts_with_7 (encode_control_block leaf_block).bytes
    ≡ ok (record leaf_block { leaf_version = future 0; output_key_parity = even }, [])
decode_control_block-encode_control_block_example =
    decode_control_block-encode_control_block exact-IsConfine starts_with_7 leaf_block
      leaf_block-IsControlBlock

-- Two hashes, and six bytes that are left.
decode_control_block_example : Decoded exact-IsConfine starts_with_7 0xc1 (sevens 32) (sevens 70)
decode_control_block_example =
    decode_control_block_lem exact-IsConfine starts_with_7 0xc1 (sevens 32) (sevens 70)
      (omega arith) (sevens-IsBytes 32) (sevens-AreBytes 70)
