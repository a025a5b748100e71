-- ===== src/Sample.antt =====
-- A codec for the tests, in place of prost's protobuf form of the records of
-- crates/xetcas-contracts/src/generated/candace.xetcas.v1.rs: a record is one list, the lengths of its
-- lists first.
use xetcas.Prelude.{
  ℕ, zero, suc, ◌≡◌, refl, ap, Option, none, some, List, [], ◌∷◌, ◌++◌, Bytes, length, take, drop,
}
use xetcas.Contracts.Storage.{XorbRecord, FileTermRecord, FileRecord}
use xetcas.Index.{Codec}

abbrev pub repeat : ℕ → ℕ → Bytes
repeat zero c = []
repeat (suc n) c = c ∷ repeat n c

-- A record as one list, the lengths of its lists first.
abbrev pub encode_xorb : XorbRecord → Bytes
encode_xorb r =
    r.num_chunks
    ∷ r.frames_length
    ∷ r.unpacked_length
    ∷ r.created_at
    ∷ length r.xorb_hash
    ∷ length r.chunk_boundary_offsets
    ∷ length r.unpacked_chunk_offsets
    ∷ (r.xorb_hash ++ (r.chunk_boundary_offsets ++ (r.unpacked_chunk_offsets ++ r.chunk_hashes)))

abbrev pub decode_lists : ℕ → ℕ → ℕ → ℕ → ℕ → ℕ → ℕ → Bytes → XorbRecord
decode_lists n f u t a b c l = record {
  xorb_hash = take a l;
  num_chunks = n;
  frames_length = f;
  unpacked_length = u;
  chunk_boundary_offsets = take b (drop a l);
  unpacked_chunk_offsets = take c (drop b (drop a l));
  chunk_hashes = drop c (drop b (drop a l));
  created_at = t;
}

abbrev pub decode_xorb : Bytes → Option XorbRecord
decode_xorb (n ∷ f ∷ u ∷ t ∷ a ∷ b ∷ c ∷ l) = some (decode_lists n f u t a b c l)
decode_xorb l = none

take-length : (xs ys : Bytes) → take (length xs) (xs ++ ys) ≡ xs
take-length [] ys = refl
take-length (x ∷ xs) ys = ap (λ l. x ∷ l) (take-length xs ys)

drop-length : (xs ys : Bytes) → drop (length xs) (xs ++ ys) ≡ ys
drop-length [] ys = refl
drop-length (x ∷ xs) ys = drop-length xs ys

pub decode_xorb-encode_xorb : (r : XorbRecord) → decode_xorb (encode_xorb r) ≡ some r
decode_xorb-encode_xorb r =
    let b = r.chunk_boundary_offsets in
    let u = r.unpacked_chunk_offsets in
    rw
      (
        take-length r.xorb_hash (b ++ (u ++ r.chunk_hashes)),
        drop-length r.xorb_hash (b ++ (u ++ r.chunk_hashes)),
        take-length b (u ++ r.chunk_hashes),
        drop-length b (u ++ r.chunk_hashes),
        take-length u r.chunk_hashes,
        drop-length u r.chunk_hashes,
      )
      refl

abbrev pub encode_terms : List FileTermRecord → Bytes
encode_terms [] = []
encode_terms (t ∷ ts) =
    length t.xorb_hash
    ∷ t.chunk_index_start
    ∷ t.chunk_index_end
    ∷ t.unpacked_segment_bytes
    ∷ (t.xorb_hash ++ encode_terms ts)

abbrev pub decode_terms : ℕ → Bytes → List FileTermRecord
decode_terms zero l = []
decode_terms (suc n) (a ∷ s ∷ e ∷ b ∷ l) =
    record {
      xorb_hash = take a l;
      chunk_index_start = s;
      chunk_index_end = e;
      unpacked_segment_bytes = b;
    }
    ∷ decode_terms n (drop a l)
decode_terms (suc n) l = []

decode_terms-encode_terms :
    (ts : List FileTermRecord) → decode_terms (length ts) (encode_terms ts) ≡ ts
decode_terms-encode_terms [] = refl
decode_terms-encode_terms (t ∷ ts) =
    rw
      (
        take-length t.xorb_hash (encode_terms ts),
        drop-length t.xorb_hash (encode_terms ts),
        decode_terms-encode_terms ts,
      )
      refl

abbrev pub encode_file : FileRecord → Bytes
encode_file f =
    f.file_length
    ∷ f.created_at
    ∷ length f.file_hash
    ∷ length f.sha256
    ∷ length f.verification_range_hashes
    ∷ length f.terms
    ∷ (f.file_hash ++ (f.sha256 ++ (f.verification_range_hashes ++ encode_terms f.terms)))

abbrev pub decode_parts : ℕ → ℕ → ℕ → ℕ → ℕ → ℕ → Bytes → FileRecord
decode_parts n t a b c m l = record {
  file_hash = take a l;
  file_length = n;
  sha256 = take b (drop a l);
  terms = decode_terms m (drop c (drop b (drop a l)));
  verification_range_hashes = take c (drop b (drop a l));
  created_at = t;
}

abbrev pub decode_file : Bytes → Option FileRecord
decode_file (n ∷ t ∷ a ∷ b ∷ c ∷ m ∷ l) = some (decode_parts n t a b c m l)
decode_file l = none

pub decode_file-encode_file : (f : FileRecord) → decode_file (encode_file f) ≡ some f
decode_file-encode_file f =
    let v = f.verification_range_hashes in
    let ts = encode_terms f.terms in
    rw
      (
        take-length f.file_hash (f.sha256 ++ (v ++ ts)),
        drop-length f.file_hash (f.sha256 ++ (v ++ ts)),
        take-length f.sha256 (v ++ ts),
        drop-length f.sha256 (v ++ ts),
        take-length v ts,
        drop-length v ts,
        decode_terms-encode_terms f.terms,
      )
      refl

abbrev pub codec : Codec
codec = record {
  encode_xorb = encode_xorb;
  decode_xorb = decode_xorb;
  encode_file = encode_file;
  decode_file = decode_file;
}
