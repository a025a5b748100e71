-- ===== src/Contracts/Constants.antt =====
-- crates/xetcas-contracts/src/constants.rs: the limits and fixed strings.
use xetcas.Prelude.{ℕ, ◌*◌, Bytes, codes}

abbrev pub prefix_default : Bytes
prefix_default = codes "default"

abbrev pub transfer_xet : Bytes
transfer_xet = codes "xet"

abbrev pub transfer_basic : Bytes
transfer_basic = codes "basic"

abbrev pub hash_algo_sha256 : Bytes
hash_algo_sha256 = codes "sha256"

abbrev pub max_chunks_per_xorb : ℕ
max_chunks_per_xorb = 8192

abbrev pub max_xorb_unpacked_bytes : ℕ
max_xorb_unpacked_bytes = 64 * 1024 * 1024

abbrev pub hash_bytes : ℕ
hash_bytes = 32

abbrev pub hash_hex_len : ℕ
hash_hex_len = 2 * hash_bytes
