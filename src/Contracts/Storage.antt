-- ===== src/Contracts/Storage.antt =====
-- The messages of storage.proto, from crates/xetcas-contracts/src/generated/candace.xetcas.v1.rs.
use xetcas.Prelude.{ℕ, List, Bytes}

pub record XorbRecord : Type 0 where
  pub xorb_hash : Bytes
  pub num_chunks : ℕ
  pub frames_length : ℕ
  pub unpacked_length : ℕ
  pub chunk_boundary_offsets : List ℕ
  pub unpacked_chunk_offsets : List ℕ
  pub chunk_hashes : Bytes
  pub created_at : ℕ

pub record FileTermRecord : Type 0 where
  pub xorb_hash : Bytes
  pub chunk_index_start : ℕ
  pub chunk_index_end : ℕ
  pub unpacked_segment_bytes : ℕ

pub record FileRecord : Type 0 where
  pub file_hash : Bytes
  pub file_length : ℕ
  pub sha256 : Bytes
  pub terms : List FileTermRecord
  pub verification_range_hashes : Bytes
  pub created_at : ℕ
