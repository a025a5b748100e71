-- ===== src/Xorbs/Tests.antt =====
-- The xorb routes of crates/xetcasd/src/routes/xorbs.rs on one upload. The tests' hashes are their own hex
-- digits, and every body parses as one chunk with the same hash.
use xetcas.Prelude.{
  ℕ, zero, suc, ◌≡◌, refl, true, false, none, some, [], ◌∷◌, ◌++◌, Bytes, codes, ok, lookup, insert,
  length, arith, bytes_eq, bytes_eq→eq, fail_if, ltb,
}
use xetcas.Contracts.Constants.{max_chunks_per_xorb}
use xetcas.Contracts.Storage.{XorbRecord}
use xetcas.Headers.{absent, value}
use xetcas.Index.{put_xorb, put_chunks, entries_of, get_xorb}
use xetcas.Sample.{codec, decode_xorb-encode_xorb}
use xetcas.Shards.{Hashing, chunk_hash_at}
use xetcas.State.{Config, authorize}
use xetcas.Contracts.Validate.Fields.{
  require_non_empty, require_hash_hex, is_hash_hex, all_bytes, is_hex_byte,
}
use xetcas.Contracts.Validate.Storage.{validate_xorb_record, last_offset}
use xetcas.Contracts.Validate.Transfer.{validate_upload_xorb_key}
use xetcas.Index.Table.{inserted, insert_or_ignore}
use xetcas.Xorbs.{
  verify_xorb, frames_exceed, compressed_len, concat_hashes, eligible_chunks, eligible_from,
  index_xorb, Format, Verified, chunk_frame_count_exceeds_limit, admit,
}
use xetcas.Xorbs.Frames.{Frames, chunk_frame_count_exceeds_limit-Frames}
use xetcas.Xorbs.Uploads.{
  World, empty_world, after_claim, after_write, after_index, Reachable, start, claim, write, index,
}
use xetcas.Xorbs.Admitted.{Agrees}
use xetcas.Xorbs.Stored.{Backed, Reachable-Backed}
use xetcas.Xorbs.Late.{Present, Reachable-Kept}
use xetcas.Xorbs.Overwritten.{overwritten, Reachable-overwritten}
use xetcas.Xorbs.Data.{content_range, get_data}
use xetcas.Xorbs.Data.Ranges.{range_header, get_data-range_header}

abbrev repeat : ℕ → ℕ → Bytes
repeat zero c = []
repeat (suc n) c = c ∷ repeat n c

abbrev hash_a : Bytes
hash_a = repeat 64 b'a'

-- Two frames, of 2 and of 1 bytes.
abbrev body : Bytes
body = 0 ∷ 2 ∷ 0 ∷ 0 ∷ 0 ∷ 2 ∷ 0 ∷ 0 ∷ 7 ∷ 8 ∷ 0 ∷ 1 ∷ 0 ∷ 0 ∷ 0 ∷ 1 ∷ 0 ∷ 0 ∷ 9 ∷ []

chunk_frame_count_exceeds_limit-Frames_example :
    (n : ℕ) × Frames 8 body 0 n
    × (chunk_frame_count_exceeds_limit 8 body ≡ some (ltb max_chunks_per_xorb n))
chunk_frame_count_exceeds_limit-Frames_example =
    chunk_frame_count_exceeds_limit-Frames 8 body (omega arith)

abbrev hashing : Hashing
hashing = record {
  MerkleHash = Bytes;
  from_slice = λ b. some b;
  as_bytes = λ m. m;
  hex = λ m. m;
  file_hash = λ cs. [];
  range_hash_from_chunks = λ ms. [];
}

abbrev format : Format Bytes
format = record {
  xorb_chunk_header_length = 8;
  from_hex = λ s. some s;
  same = bytes_eq;
  reconstruct_xorb_with_footer = λ b. some (record {
    stored = b ++ codes "footer";
    info = record {
      num_chunks = 1;
      chunk_boundary_offsets = length b ∷ [];
      unpacked_chunk_offsets = 3 ∷ [];
      chunk_hashes = repeat 32 b'c' ∷ [];
    };
    computed = hash_a;
  });
  hash_is_global_dedup_eligible = λ m. true;
}

abbrev config : Config
config = record { public_url = []; git_root = []; git_autocreate = true; token = none }

abbrev xorb : XorbRecord
xorb = record {
  xorb_hash = hash_a;
  num_chunks = 1;
  frames_length = 19;
  unpacked_length = 3;
  chunk_boundary_offsets = 19 ∷ [];
  unpacked_chunk_offsets = 3 ∷ [];
  chunk_hashes = repeat 32 b'c';
  created_at = 5;
}

abbrev verified : Verified
verified = record {
  stored = body ++ codes "footer";
  xorb = xorb;
  dedup_chunks = (repeat 32 b'c', 0) ∷ [];
}

admitted : admit hashing format config 5 absent (codes "default") hash_a body ≡ ok verified
unfolding authorize validate_upload_xorb_key require_non_empty require_hash_hex is_hash_hex
    all_bytes is_hex_byte fail_if verify_xorb chunk_frame_count_exceeds_limit frames_exceed
    compressed_len concat_hashes validate_xorb_record last_offset eligible_chunks eligible_from
    chunk_hash_at admit bytes_eq
admitted = refl

abbrev written : World
written = after_write hash_a verified (after_claim hash_a verified empty_world)

abbrev indexed : World
indexed = after_index codec hash_a verified written

get_xorb-empty : get_xorb codec hash_a empty_world.store.index ≡ ok none
unfolding get_xorb lookup
get_xorb-empty = refl

indexed-Reachable : Reachable codec hashing format false indexed
unfolding lookup bytes_eq
indexed-Reachable = index hash_a verified refl (
    write hash_a verified refl (
      claim config 5 absent (codes "default") hash_a body verified admitted refl get_xorb-empty
        start))

get_xorb-indexed : get_xorb codec hash_a indexed.store.index ≡ ok (some xorb)
unfolding get_xorb lookup bytes_eq index_xorb put_xorb inserted insert_or_ignore put_chunks
    entries_of
get_xorb-indexed = refl

Reachable-Backed_example : Backed codec hashing format hash_a xorb indexed.store.objects
Reachable-Backed_example =
    Reachable-Backed codec hashing format decode_xorb-encode_xorb (λ s m e. cc) bytes_eq→eq indexed
      hash_a xorb indexed-Reachable get_xorb-indexed

-- The same xorb in a shorter body.
abbrev other_body : Bytes
other_body = 0 ∷ 1 ∷ 0 ∷ 0 ∷ 0 ∷ 1 ∷ 0 ∷ 0 ∷ 9 ∷ []

abbrev other_verified : Verified
other_verified = record {
  stored = other_body ++ codes "footer";
  xorb = record {
    xorb_hash = hash_a;
    num_chunks = 1;
    frames_length = 9;
    unpacked_length = 3;
    chunk_boundary_offsets = 9 ∷ [];
    unpacked_chunk_offsets = 3 ∷ [];
    chunk_hashes = repeat 32 b'c';
    created_at = 6;
  };
  dedup_chunks = (repeat 32 b'c', 0) ∷ [];
}

other_admitted :
    admit hashing format config 6 absent (codes "default") hash_a other_body ≡ ok other_verified
unfolding authorize validate_upload_xorb_key require_non_empty require_hash_hex is_hash_hex
    all_bytes is_hex_byte fail_if verify_xorb chunk_frame_count_exceeds_limit frames_exceed
    compressed_len concat_hashes validate_xorb_record last_offset eligible_chunks eligible_from
    chunk_hash_at admit bytes_eq
other_admitted = refl

nobody-active : lookup hash_a empty_world.active ≡ none
unfolding lookup
nobody-active = refl

abbrev replaced : World
replaced = overwritten codec hash_a verified other_verified empty_world

-- The record has 9 bytes of frames, and the object 19.
Reachable-overwritten_example :
    Reachable codec hashing format true replaced
    × (get_xorb codec hash_a replaced.store.index ≡ ok (some other_verified.xorb))
    × (lookup hash_a replaced.store.objects ≡ some verified.stored)
Reachable-overwritten_example =
    Reachable-overwritten codec hashing format decode_xorb-encode_xorb (λ s m e. cc) bytes_eq→eq
      config 5 6 absent (codes "default") hash_a body other_body verified other_verified empty_world
      admitted other_admitted nobody-active get_xorb-empty start

Reachable-Kept_example :
    ((stored : Bytes) × Agrees hashing format hash_a stored other_verified.xorb)
    × Present hashing format hash_a replaced.store.objects
Reachable-Kept_example =
    let (reached, found, _) =
      Reachable-overwritten codec hashing format decode_xorb-encode_xorb (λ s m e. cc) bytes_eq→eq
        config 5 6 absent (codes "default") hash_a body other_body verified other_verified
        empty_world admitted other_admitted nobody-active get_xorb-empty start in
    Reachable-Kept codec hashing format true decode_xorb-encode_xorb (λ s m e. cc) bytes_eq→eq
      replaced hash_a other_verified.xorb reached found

lookup-indexed : lookup hash_a indexed.store.objects ≡ some verified.stored
unfolding lookup insert bytes_eq
lookup-indexed = refl

get_data-range_header_example :
    get_data codec hash_a (value (range_header 10 18)) indexed.store
    ≡ ok (record {
      status = 206;
      content_length = 9;
      content_range = some (content_range 10 19 19);
      body = 0 ∷ 1 ∷ 0 ∷ 0 ∷ 0 ∷ 1 ∷ 0 ∷ 0 ∷ 9 ∷ [];
    })
get_data-range_header_example =
    get_data-range_header codec hash_a verified.stored indexed.store xorb 10 19 get_xorb-indexed
      lookup-indexed (omega arith) (omega arith) (omega arith)
