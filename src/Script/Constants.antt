-- ===== src/Script/Constants.antt =====
-- consensus/src/opcodes.rs: the constants of the opcodes by name, in the order of the source, and the
-- constants that the variants of OpCode are declared with.
use Prim.Native.String.{String}
use text.Mathlib.Text.{◌==◌}
use bp_core.Base.{
  ℕ, zero, suc, ◌+◌, ◌≡◌, refl, List, [], ◌∷◌, ◌++◌, map, Option, none, some, if◌then◌else◌,
}
use bp_core.Script.OpCodes.{OpCode, to_u8}

-- Pushes of data.
unfoldable pub push_codes : List (String × ℕ)
push_codes =
    ("OP_PUSHBYTES_0", 0x00)
    ∷ ("OP_PUSHBYTES_1", 0x01)
    ∷ ("OP_PUSHBYTES_2", 0x02)
    ∷ ("OP_PUSHBYTES_3", 0x03)
    ∷ ("OP_PUSHBYTES_4", 0x04)
    ∷ ("OP_PUSHBYTES_5", 0x05)
    ∷ ("OP_PUSHBYTES_6", 0x06)
    ∷ ("OP_PUSHBYTES_7", 0x07)
    ∷ ("OP_PUSHBYTES_8", 0x08)
    ∷ ("OP_PUSHBYTES_9", 0x09)
    ∷ ("OP_PUSHBYTES_10", 0x0a)
    ∷ ("OP_PUSHBYTES_11", 0x0b)
    ∷ ("OP_PUSHBYTES_12", 0x0c)
    ∷ ("OP_PUSHBYTES_13", 0x0d)
    ∷ ("OP_PUSHBYTES_14", 0x0e)
    ∷ ("OP_PUSHBYTES_15", 0x0f)
    ∷ ("OP_PUSHBYTES_16", 0x10)
    ∷ ("OP_PUSHBYTES_17", 0x11)
    ∷ ("OP_PUSHBYTES_18", 0x12)
    ∷ ("OP_PUSHBYTES_19", 0x13)
    ∷ ("OP_PUSHBYTES_20", 0x14)
    ∷ ("OP_PUSHBYTES_21", 0x15)
    ∷ ("OP_PUSHBYTES_22", 0x16)
    ∷ ("OP_PUSHBYTES_23", 0x17)
    ∷ ("OP_PUSHBYTES_24", 0x18)
    ∷ ("OP_PUSHBYTES_25", 0x19)
    ∷ ("OP_PUSHBYTES_26", 0x1a)
    ∷ ("OP_PUSHBYTES_27", 0x1b)
    ∷ ("OP_PUSHBYTES_28", 0x1c)
    ∷ ("OP_PUSHBYTES_29", 0x1d)
    ∷ ("OP_PUSHBYTES_30", 0x1e)
    ∷ ("OP_PUSHBYTES_31", 0x1f)
    ∷ ("OP_PUSHBYTES_32", 0x20)
    ∷ ("OP_PUSHBYTES_33", 0x21)
    ∷ ("OP_PUSHBYTES_34", 0x22)
    ∷ ("OP_PUSHBYTES_35", 0x23)
    ∷ ("OP_PUSHBYTES_36", 0x24)
    ∷ ("OP_PUSHBYTES_37", 0x25)
    ∷ ("OP_PUSHBYTES_38", 0x26)
    ∷ ("OP_PUSHBYTES_39", 0x27)
    ∷ ("OP_PUSHBYTES_40", 0x28)
    ∷ ("OP_PUSHBYTES_41", 0x29)
    ∷ ("OP_PUSHBYTES_42", 0x2a)
    ∷ ("OP_PUSHBYTES_43", 0x2b)
    ∷ ("OP_PUSHBYTES_44", 0x2c)
    ∷ ("OP_PUSHBYTES_45", 0x2d)
    ∷ ("OP_PUSHBYTES_46", 0x2e)
    ∷ ("OP_PUSHBYTES_47", 0x2f)
    ∷ ("OP_PUSHBYTES_48", 0x30)
    ∷ ("OP_PUSHBYTES_49", 0x31)
    ∷ ("OP_PUSHBYTES_50", 0x32)
    ∷ ("OP_PUSHBYTES_51", 0x33)
    ∷ ("OP_PUSHBYTES_52", 0x34)
    ∷ ("OP_PUSHBYTES_53", 0x35)
    ∷ ("OP_PUSHBYTES_54", 0x36)
    ∷ ("OP_PUSHBYTES_55", 0x37)
    ∷ ("OP_PUSHBYTES_56", 0x38)
    ∷ ("OP_PUSHBYTES_57", 0x39)
    ∷ ("OP_PUSHBYTES_58", 0x3a)
    ∷ ("OP_PUSHBYTES_59", 0x3b)
    ∷ ("OP_PUSHBYTES_60", 0x3c)
    ∷ ("OP_PUSHBYTES_61", 0x3d)
    ∷ ("OP_PUSHBYTES_62", 0x3e)
    ∷ ("OP_PUSHBYTES_63", 0x3f)
    ∷ ("OP_PUSHBYTES_64", 0x40)
    ∷ ("OP_PUSHBYTES_65", 0x41)
    ∷ ("OP_PUSHBYTES_66", 0x42)
    ∷ ("OP_PUSHBYTES_67", 0x43)
    ∷ ("OP_PUSHBYTES_68", 0x44)
    ∷ ("OP_PUSHBYTES_69", 0x45)
    ∷ ("OP_PUSHBYTES_70", 0x46)
    ∷ ("OP_PUSHBYTES_71", 0x47)
    ∷ ("OP_PUSHBYTES_72", 0x48)
    ∷ ("OP_PUSHBYTES_73", 0x49)
    ∷ ("OP_PUSHBYTES_74", 0x4a)
    ∷ ("OP_PUSHBYTES_75", 0x4b)
    ∷ ("OP_PUSHDATA1", 0x4c)
    ∷ ("OP_PUSHDATA2", 0x4d)
    ∷ ("OP_PUSHDATA4", 0x4e)
    ∷ []

-- Pushes of numbers.
unfoldable pub number_codes : List (String × ℕ)
number_codes =
    ("OP_PUSHNUM_NEG1", 0x4f)
    ∷ ("OP_RESERVED", 0x50)
    ∷ ("OP_PUSHNUM_1", 0x51)
    ∷ ("OP_PUSHNUM_2", 0x52)
    ∷ ("OP_PUSHNUM_3", 0x53)
    ∷ ("OP_PUSHNUM_4", 0x54)
    ∷ ("OP_PUSHNUM_5", 0x55)
    ∷ ("OP_PUSHNUM_6", 0x56)
    ∷ ("OP_PUSHNUM_7", 0x57)
    ∷ ("OP_PUSHNUM_8", 0x58)
    ∷ ("OP_PUSHNUM_9", 0x59)
    ∷ ("OP_PUSHNUM_10", 0x5a)
    ∷ ("OP_PUSHNUM_11", 0x5b)
    ∷ ("OP_PUSHNUM_12", 0x5c)
    ∷ ("OP_PUSHNUM_13", 0x5d)
    ∷ ("OP_PUSHNUM_14", 0x5e)
    ∷ ("OP_PUSHNUM_15", 0x5f)
    ∷ ("OP_PUSHNUM_16", 0x60)
    ∷ []

-- Control flow and the stack.
unfoldable pub flow_codes : List (String × ℕ)
flow_codes =
    ("OP_NOP", 0x61)
    ∷ ("OP_VER", 0x62)
    ∷ ("OP_IF", 0x63)
    ∷ ("OP_NOTIF", 0x64)
    ∷ ("OP_VERIF", 0x65)
    ∷ ("OP_VERNOTIF", 0x66)
    ∷ ("OP_ELSE", 0x67)
    ∷ ("OP_ENDIF", 0x68)
    ∷ ("OP_VERIFY", 0x69)
    ∷ ("OP_RETURN", 0x6a)
    ∷ ("OP_TOALTSTACK", 0x6b)
    ∷ ("OP_FROMALTSTACK", 0x6c)
    ∷ ("OP_2DROP", 0x6d)
    ∷ ("OP_2DUP", 0x6e)
    ∷ ("OP_3DUP", 0x6f)
    ∷ ("OP_2OVER", 0x70)
    ∷ ("OP_2ROT", 0x71)
    ∷ ("OP_2SWAP", 0x72)
    ∷ ("OP_IFDUP", 0x73)
    ∷ ("OP_DEPTH", 0x74)
    ∷ ("OP_DROP", 0x75)
    ∷ ("OP_DUP", 0x76)
    ∷ ("OP_NIP", 0x77)
    ∷ ("OP_OVER", 0x78)
    ∷ ("OP_PICK", 0x79)
    ∷ ("OP_ROLL", 0x7a)
    ∷ ("OP_ROT", 0x7b)
    ∷ ("OP_SWAP", 0x7c)
    ∷ ("OP_TUCK", 0x7d)
    ∷ []

-- Strings, bits and arithmetic.
unfoldable pub data_codes : List (String × ℕ)
data_codes =
    ("OP_CAT", 0x7e)
    ∷ ("OP_SUBSTR", 0x7f)
    ∷ ("OP_LEFT", 0x80)
    ∷ ("OP_RIGHT", 0x81)
    ∷ ("OP_SIZE", 0x82)
    ∷ ("OP_INVERT", 0x83)
    ∷ ("OP_AND", 0x84)
    ∷ ("OP_OR", 0x85)
    ∷ ("OP_XOR", 0x86)
    ∷ ("OP_EQUAL", 0x87)
    ∷ ("OP_EQUALVERIFY", 0x88)
    ∷ ("OP_RESERVED1", 0x89)
    ∷ ("OP_RESERVED2", 0x8a)
    ∷ ("OP_1ADD", 0x8b)
    ∷ ("OP_1SUB", 0x8c)
    ∷ ("OP_2MUL", 0x8d)
    ∷ ("OP_2DIV", 0x8e)
    ∷ ("OP_NEGATE", 0x8f)
    ∷ ("OP_ABS", 0x90)
    ∷ ("OP_NOT", 0x91)
    ∷ ("OP_0NOTEQUAL", 0x92)
    ∷ ("OP_ADD", 0x93)
    ∷ ("OP_SUB", 0x94)
    ∷ ("OP_MUL", 0x95)
    ∷ ("OP_DIV", 0x96)
    ∷ ("OP_MOD", 0x97)
    ∷ ("OP_LSHIFT", 0x98)
    ∷ ("OP_RSHIFT", 0x99)
    ∷ ("OP_BOOLAND", 0x9a)
    ∷ ("OP_BOOLOR", 0x9b)
    ∷ ("OP_NUMEQUAL", 0x9c)
    ∷ ("OP_NUMEQUALVERIFY", 0x9d)
    ∷ ("OP_NUMNOTEQUAL", 0x9e)
    ∷ ("OP_LESSTHAN", 0x9f)
    ∷ ("OP_GREATERTHAN", 0xa0)
    ∷ ("OP_LESSTHANOREQUAL", 0xa1)
    ∷ ("OP_GREATERTHANOREQUAL", 0xa2)
    ∷ ("OP_MIN", 0xa3)
    ∷ ("OP_MAX", 0xa4)
    ∷ ("OP_WITHIN", 0xa5)
    ∷ []

-- Hashes, signatures and time locks.
unfoldable pub crypto_codes : List (String × ℕ)
crypto_codes =
    ("OP_RIPEMD160", 0xa6)
    ∷ ("OP_SHA1", 0xa7)
    ∷ ("OP_SHA256", 0xa8)
    ∷ ("OP_HASH160", 0xa9)
    ∷ ("OP_HASH256", 0xaa)
    ∷ ("OP_CODESEPARATOR", 0xab)
    ∷ ("OP_CHECKSIG", 0xac)
    ∷ ("OP_CHECKSIGVERIFY", 0xad)
    ∷ ("OP_CHECKMULTISIG", 0xae)
    ∷ ("OP_CHECKMULTISIGVERIFY", 0xaf)
    ∷ ("OP_NOP1", 0xb0)
    ∷ ("OP_CLTV", 0xb1)
    ∷ ("OP_CSV", 0xb2)
    ∷ ("OP_NOP4", 0xb3)
    ∷ ("OP_NOP5", 0xb4)
    ∷ ("OP_NOP6", 0xb5)
    ∷ ("OP_NOP7", 0xb6)
    ∷ ("OP_NOP8", 0xb7)
    ∷ ("OP_NOP9", 0xb8)
    ∷ ("OP_NOP10", 0xb9)
    ∷ []

-- Bytes that act as OP_RETURN, to 0xdc.
unfoldable pub return_codes_low : List (String × ℕ)
return_codes_low =
    ("OP_CHECKSIGADD", 0xba)
    ∷ ("OP_RETURN_187", 0xbb)
    ∷ ("OP_RETURN_188", 0xbc)
    ∷ ("OP_RETURN_189", 0xbd)
    ∷ ("OP_RETURN_190", 0xbe)
    ∷ ("OP_RETURN_191", 0xbf)
    ∷ ("OP_RETURN_192", 0xc0)
    ∷ ("OP_RETURN_193", 0xc1)
    ∷ ("OP_RETURN_194", 0xc2)
    ∷ ("OP_RETURN_195", 0xc3)
    ∷ ("OP_RETURN_196", 0xc4)
    ∷ ("OP_RETURN_197", 0xc5)
    ∷ ("OP_RETURN_198", 0xc6)
    ∷ ("OP_RETURN_199", 0xc7)
    ∷ ("OP_RETURN_200", 0xc8)
    ∷ ("OP_RETURN_201", 0xc9)
    ∷ ("OP_RETURN_202", 0xca)
    ∷ ("OP_RETURN_203", 0xcb)
    ∷ ("OP_RETURN_204", 0xcc)
    ∷ ("OP_RETURN_205", 0xcd)
    ∷ ("OP_RETURN_206", 0xce)
    ∷ ("OP_RETURN_207", 0xcf)
    ∷ ("OP_RETURN_208", 0xd0)
    ∷ ("OP_RETURN_209", 0xd1)
    ∷ ("OP_RETURN_210", 0xd2)
    ∷ ("OP_RETURN_211", 0xd3)
    ∷ ("OP_RETURN_212", 0xd4)
    ∷ ("OP_RETURN_213", 0xd5)
    ∷ ("OP_RETURN_214", 0xd6)
    ∷ ("OP_RETURN_215", 0xd7)
    ∷ ("OP_RETURN_216", 0xd8)
    ∷ ("OP_RETURN_217", 0xd9)
    ∷ ("OP_RETURN_218", 0xda)
    ∷ ("OP_RETURN_219", 0xdb)
    ∷ ("OP_RETURN_220", 0xdc)
    ∷ []

-- Bytes that act as OP_RETURN, from 0xdd, and the last byte.
unfoldable pub return_codes_high : List (String × ℕ)
return_codes_high =
    ("OP_RETURN_221", 0xdd)
    ∷ ("OP_RETURN_222", 0xde)
    ∷ ("OP_RETURN_223", 0xdf)
    ∷ ("OP_RETURN_224", 0xe0)
    ∷ ("OP_RETURN_225", 0xe1)
    ∷ ("OP_RETURN_226", 0xe2)
    ∷ ("OP_RETURN_227", 0xe3)
    ∷ ("OP_RETURN_228", 0xe4)
    ∷ ("OP_RETURN_229", 0xe5)
    ∷ ("OP_RETURN_230", 0xe6)
    ∷ ("OP_RETURN_231", 0xe7)
    ∷ ("OP_RETURN_232", 0xe8)
    ∷ ("OP_RETURN_233", 0xe9)
    ∷ ("OP_RETURN_234", 0xea)
    ∷ ("OP_RETURN_235", 0xeb)
    ∷ ("OP_RETURN_236", 0xec)
    ∷ ("OP_RETURN_237", 0xed)
    ∷ ("OP_RETURN_238", 0xee)
    ∷ ("OP_RETURN_239", 0xef)
    ∷ ("OP_RETURN_240", 0xf0)
    ∷ ("OP_RETURN_241", 0xf1)
    ∷ ("OP_RETURN_242", 0xf2)
    ∷ ("OP_RETURN_243", 0xf3)
    ∷ ("OP_RETURN_244", 0xf4)
    ∷ ("OP_RETURN_245", 0xf5)
    ∷ ("OP_RETURN_246", 0xf6)
    ∷ ("OP_RETURN_247", 0xf7)
    ∷ ("OP_RETURN_248", 0xf8)
    ∷ ("OP_RETURN_249", 0xf9)
    ∷ ("OP_RETURN_250", 0xfa)
    ∷ ("OP_RETURN_251", 0xfb)
    ∷ ("OP_RETURN_252", 0xfc)
    ∷ ("OP_RETURN_253", 0xfd)
    ∷ ("OP_RETURN_254", 0xfe)
    ∷ ("OP_INVALIDOPCODE", 0xff)
    ∷ []

unfoldable pub constants : List (String × ℕ)
unfolding push_codes number_codes flow_codes data_codes crypto_codes return_codes_low
    return_codes_high
constants =
    push_codes
    ++ (number_codes
        ++ (flow_codes
            ++ (data_codes ++ (crypto_codes ++ (return_codes_low ++ return_codes_high)))))

-- The value of a constant.
unfoldable pub value : String → List (String × ℕ) → Option ℕ
value name [] = none
value name ((n, byte) ∷ rest) =
    let later = value name rest in if n == name then some byte else later

-- The constant that a variant is declared with, `PushBytes0 = OP_PUSHBYTES_0` and so on.
unfoldable pub declared : OpCode → String
declared OpCode.push_bytes0 = "OP_PUSHBYTES_0"
declared OpCode.push_bytes1 = "OP_PUSHBYTES_1"
declared OpCode.push_bytes2 = "OP_PUSHBYTES_2"
declared OpCode.push_bytes3 = "OP_PUSHBYTES_3"
declared OpCode.push_bytes4 = "OP_PUSHBYTES_4"
declared OpCode.push_bytes5 = "OP_PUSHBYTES_5"
declared OpCode.push_bytes6 = "OP_PUSHBYTES_6"
declared OpCode.push_bytes7 = "OP_PUSHBYTES_7"
declared OpCode.push_bytes8 = "OP_PUSHBYTES_8"
declared OpCode.push_bytes9 = "OP_PUSHBYTES_9"
declared OpCode.push_bytes10 = "OP_PUSHBYTES_10"
declared OpCode.push_bytes11 = "OP_PUSHBYTES_11"
declared OpCode.push_bytes12 = "OP_PUSHBYTES_12"
declared OpCode.push_bytes13 = "OP_PUSHBYTES_13"
declared OpCode.push_bytes14 = "OP_PUSHBYTES_14"
declared OpCode.push_bytes15 = "OP_PUSHBYTES_15"
declared OpCode.push_bytes16 = "OP_PUSHBYTES_16"
declared OpCode.push_bytes17 = "OP_PUSHBYTES_17"
declared OpCode.push_bytes18 = "OP_PUSHBYTES_18"
declared OpCode.push_bytes19 = "OP_PUSHBYTES_19"
declared OpCode.push_bytes20 = "OP_PUSHBYTES_20"
declared OpCode.push_bytes21 = "OP_PUSHBYTES_21"
declared OpCode.push_bytes22 = "OP_PUSHBYTES_22"
declared OpCode.push_bytes23 = "OP_PUSHBYTES_23"
declared OpCode.push_bytes24 = "OP_PUSHBYTES_24"
declared OpCode.push_bytes25 = "OP_PUSHBYTES_25"
declared OpCode.push_bytes26 = "OP_PUSHBYTES_26"
declared OpCode.push_bytes27 = "OP_PUSHBYTES_27"
declared OpCode.push_bytes28 = "OP_PUSHBYTES_28"
declared OpCode.push_bytes29 = "OP_PUSHBYTES_29"
declared OpCode.push_bytes30 = "OP_PUSHBYTES_30"
declared OpCode.push_bytes31 = "OP_PUSHBYTES_31"
declared OpCode.push_bytes32 = "OP_PUSHBYTES_32"
declared OpCode.push_data1 = "OP_PUSHDATA1"
declared OpCode.push_data2 = "OP_PUSHDATA2"
declared OpCode.push_data4 = "OP_PUSHDATA4"
declared OpCode.push_num1 = "OP_PUSHNUM_1"
declared OpCode.reserved = "OP_RESERVED"
declared OpCode.return = "OP_RETURN"
declared OpCode.dup = "OP_DUP"
declared OpCode.equal = "OP_EQUAL"
declared OpCode.equal_verify = "OP_EQUALVERIFY"
declared OpCode.ripemd160 = "OP_RIPEMD160"
declared OpCode.sha1 = "OP_SHA1"
declared OpCode.sha256 = "OP_SHA256"
declared OpCode.hash160 = "OP_HASH160"
declared OpCode.hash256 = "OP_HASH256"
declared OpCode.check_sig = "OP_CHECKSIG"
declared OpCode.check_sig_verify = "OP_CHECKSIGVERIFY"

-- The numbers from `start` up.
pub range_from : ℕ → ℕ → List ℕ
range_from start zero = []
range_from start (suc n) = start ∷ range_from (start + 1) n

-- The constants are all the bytes, each once and in order.
pub constants_bytes : map (λ (c : String × ℕ). c.1) constants ≡ range_from 0 256
unfolding constants range_from
constants_bytes = refl

-- The byte of every opcode is the value of the constant that it is declared with.
pub to_u8_lem : (c : OpCode) → value (declared c) constants ≡ some (to_u8 c)
unfolding value declared constants to_u8
to_u8_lem OpCode.push_bytes0 = refl
to_u8_lem _ = refl
