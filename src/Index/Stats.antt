-- ===== src/Index/Stats.antt =====
-- `stats` of crates/xetcasd/src/index.rs: what `/health` reports after a series of uploads.
use xetcas.Prelude.{
  ℕ, ◌+◌, ◌^◌, ◌<◌, ◌≡◌, refl, inl, inr, Bool, true, false, not, ◌||◌, Bool-cases, List, [], ◌∷◌,
  Bytes, bytes_eq, bytes_eq_iff, lookup, length, ok, arith, if◌then◌else◌,
}
use xetcas.Contracts.Storage.{XorbRecord, FileRecord}
use xetcas.Index.{Codec, Tables, schema, ChunkEntry, put_xorb, put_files, stats}
use xetcas.Index.Table.{
  Rows, inserted, insert_or_ignore, lookup-insert_or_ignore, length-insert_or_ignore,
}
use xetcas.Index.Xorbs.{put_xorb-new, put_xorb-old}

-- Uploads of xorbs with the size of what each one wrote, the latest first.
abbrev pub Log : Type 0
Log = List (Bytes × ℕ)

abbrev pub has : Bytes → Log → Bool
has k [] = false
has k ((j, n) ∷ log) = bytes_eq j k || has k log

-- How many hashes there are, and the sizes of the first upload of each.
abbrev pub hashes : Log → ℕ
hashes [] = 0
hashes ((k, n) ∷ log) = (if has k log then 0 else 1) + hashes log

abbrev pub first_sizes : Log → ℕ
first_sizes [] = 0
first_sizes ((k, n) ∷ log) = (if has k log then 0 else n) + first_sizes log

-- The tables that transactions make from the schema, with the uploads of xorbs among them. The uploads of one
-- hash may come with different sizes.
pub data Accounted (codec : Codec) : Log → Tables → Type 0 where
  created : Accounted codec [] schema
  xorb_stored :
      (r : XorbRecord) (dedup_chunks : List (Bytes × ℕ)) (disk_bytes : ℕ) (log : Log) (t : Tables)
      → Accounted codec log t
      → Accounted codec
          ((r.xorb_hash, disk_bytes) ∷ log)
          (put_xorb codec r dedup_chunks disk_bytes t).1
  shard_stored :
      (files : List FileRecord) (chunks : List ChunkEntry) (log : Log) (t : Tables)
      → Accounted codec log t
      → Accounted codec log (put_files codec files chunks t).1

inserted-insert :
    (k j : Bytes) (v : Bytes) (m : Rows Bytes)
    → inserted k (insert_or_ignore j v m) ≡ (if bytes_eq j k then false else inserted k m)
unfolding inserted
inserted-insert k j v m = ground (arith, lookup-insert_or_ignore k j v m)

inserted-nil : (k : Bytes) → inserted k schema.xorbs ≡ true
unfolding inserted lookup
inserted-nil k = refl

-- A hash has a row exactly if it was uploaded.
inserted-has :
    (codec : Codec) (k : Bytes) (log : Log) (t : Tables)
    → Accounted codec log t
    → inserted k t.xorbs ≡ not (has k log)
unfolding put_files
inserted-has codec k _ _ created = inserted-nil k
inserted-has codec k _ _ (xorb_stored r cs n log t a) =
    let before = inserted-has codec k log t a in
    elim (Bool-cases (inserted r.xorb_hash t.xorbs)) [
      | inl e ↦
          rw (put_xorb-new codec r cs n t e)
            (ground (arith, before, inserted-insert k r.xorb_hash (codec.encode_xorb r) t.xorbs))
      | inr e ↦ rw (put_xorb-old codec r cs n t e) (
          ground
            (arith, before, inserted-has codec r.xorb_hash log t a, bytes_eq_iff r.xorb_hash k))
    ]
inserted-has codec k _ _ (shard_stored files chunks log t a) = inserted-has codec k log t a

Accounted-sums :
    (codec : Codec) (log : Log) (t : Tables)
    → Accounted codec log t
    → (t.disk_bytes ≡ first_sizes log) × (length t.xorbs ≡ hashes log)
unfolding put_files
Accounted-sums codec _ _ created = (refl, refl)
Accounted-sums codec _ _ (xorb_stored r cs n log t a) =
    let (sizes, rows) = Accounted-sums codec log t a in
    let new = inserted-has codec r.xorb_hash log t a in
    elim (Bool-cases (inserted r.xorb_hash t.xorbs)) [
      | inl e ↦ rw (put_xorb-new codec r cs n t e) (
        ground (arith, sizes, new),
        ground
            (arith, rows, new, length-insert_or_ignore r.xorb_hash (codec.encode_xorb r) t.xorbs),
      )
      | inr e ↦
          rw (put_xorb-old codec r cs n t e) (ground (arith, sizes, new), ground (arith, rows, new))
    ]
Accounted-sums codec _ _ (shard_stored files chunks log t a) = Accounted-sums codec log t a

-- In every index that uploads make, as long as the sizes of the first uploads of the hashes sum up to less than
-- 2 ^ 63, the statistics are read; they count each uploaded hash once and report that sum, also when
-- later uploads of a hash had another size.
pub stats-first_sizes :
    (codec : Codec) (log : Log) (t : Tables)
    → Accounted codec log t
    → first_sizes log < 2 ^ 63
    → stats t
      ≡ ok (record { xorbs = hashes log; files = length t.files; stored_bytes = first_sizes log })
unfolding stats
stats-first_sizes codec log t a small =
    let (sizes, rows) = Accounted-sums codec log t a in ground (arith, sizes, rows)
