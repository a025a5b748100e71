-- ===== src/Reconstruction/Plan.antt =====
-- crates/xetcasd/src/reconstruction.rs: `plan_reconstruction`. Byte positions are u64. The map of the
-- fetch ranges is an association list in the order in which its xorbs first occur: the source sorts
-- it by hash, and hands it on to a map without order. Each `while` recurs on the rounds that its
-- test leaves it.
use xetcas.Prelude.{
  ℕ, zero, suc, ◌+◌, ◌-◌, min, max, ◌&&◌, Option, none, some, List, [], ◌∷◌, ◌++◌, Bytes, bytes_eq,
  lookup, Result, ok, err, ◌>>=◌, ok_or, ltb, leb, ◌==◌, true, false, if◌then◌else◌,
}
use xetcas.Prelude.Words.{add_u64, sub_u64, checked_sub}
use xetcas.Contracts.Storage.{FileTermRecord, FileRecord}
use xetcas.Reconstruction.Meta.{
  PlanError, past_terms, unknown_xorb, segment_shorter, XorbMeta, chunk_len, byte_offset,
}

pub record Term : Type 0 where
  pub xorb : Bytes
  pub chunk_start : ℕ
  pub chunk_end : ℕ
  pub unpacked_length : ℕ

pub record FetchRange : Type 0 where
  pub chunk_start : ℕ
  pub chunk_end : ℕ
  pub byte_start : ℕ
  pub byte_end : ℕ

abbrev pub Ranges : Type 0
Ranges = List (Bytes × List FetchRange)

pub record Plan : Type 0 where
  pub offset_into_first_range : ℕ
  pub terms : List Term
  pub fetch : Ranges

-- `Plan::empty`.
abbrev pub empty : Plan
empty = record { offset_into_first_range = 0; terms = []; fetch = [] }

abbrev pub Metas : Type 0
Metas = List (Bytes × XorbMeta)

-- What the request asks for: nothing that the file has, an empty file, or a range inside it.
pub data Request : Type 0 where
  past_eof : Request
  empty_file : Request
  within : ℕ → ℕ → Request

unfoldable pub clamp : ℕ → Option (ℕ × ℕ) → Request
clamp total none = if total == 0 then empty_file else within 0 total
clamp total (some (start, end)) =
    if leb total start
    then (if (total == 0) && (start == 0) then empty_file else past_eof)
    else within start (min end total)

-- The first loop: whole segments that end before the range starts are skipped. The result is the
-- bytes before the segment that the range starts in, and the segments from there on.
unfoldable pub skip_segments :
    ℕ → ℕ → List FileTermRecord → Result PlanError (ℕ × List FileTermRecord)
skip_segments range_start cumulative [] = err past_terms
skip_segments range_start cumulative (seg ∷ segs) =
    if ltb range_start (add_u64 cumulative seg.unpacked_segment_bytes)
    then ok (cumulative, seg ∷ segs)
    else skip_segments range_start (add_u64 cumulative seg.unpacked_segment_bytes) segs

-- The variables that the trimming of leading chunks changes.
pub record Cursor : Type 0 where
  pub cumulative : ℕ
  pub first_chunk_byte_start : ℕ
  pub unpacked : ℕ
  pub chunk_start : ℕ

advance : Cursor → ℕ → ℕ → Cursor
advance c next rest = record {
  cumulative = add_u64 c.cumulative next;
  first_chunk_byte_start = add_u64 c.first_chunk_byte_start next;
  unpacked = rest;
  chunk_start = c.chunk_start + 1;
}

-- `while chunk_start < chunk_end`: `rounds` is the difference.
unfoldable pub trim_leading : XorbMeta → ℕ → ℕ → Cursor → Result PlanError Cursor
unfolding advance
trim_leading meta range_start zero c = ok c
trim_leading meta range_start (suc rounds) c = chunk_len meta c.chunk_start >>= λ next.
    elim (ltb range_start (add_u64 c.cumulative next)) [
      | true ↦ ok c
      | false ↦ ok_or (checked_sub c.unpacked next) segment_shorter >>= λ rest.
          trim_leading meta range_start rounds (advance c next rest)
    ]

-- The variables that the trimming of trailing chunks changes.
pub record Tail : Type 0 where
  pub chunk_end : ℕ
  pub unpacked : ℕ

-- `while chunk_end > chunk_start`: `rounds` is the difference.
unfoldable pub trim_trailing : XorbMeta → ℕ → ℕ → ℕ → Tail → Result PlanError Tail
trim_trailing meta range_end cumulative zero t = ok t
trim_trailing meta range_end cumulative (suc rounds) t =
    chunk_len meta (t.chunk_end - 1) >>= λ last.
    ok_or (checked_sub t.unpacked last) segment_shorter >>= λ without.
    elim (ltb (add_u64 cumulative without) range_end) [
      | true ↦ ok t
      | false ↦
          trim_trailing meta range_end cumulative rounds
            (record { chunk_end = t.chunk_end - 1; unpacked = without })
    ]

-- `per_xorb.entry(hash).or_default().push(range)`.
unfoldable pub push_range : Bytes → FetchRange → Ranges → Ranges
push_range hash range [] = (hash, range ∷ []) ∷ []
push_range hash range ((key, ranges) ∷ m) =
    if bytes_eq key hash
    then (key, ranges ++ range ∷ []) ∷ m
    else (key, ranges) ∷ push_range hash range m

-- The variables of the main loop.
pub record Walk : Type 0 where
  pub cumulative : ℕ
  pub first_chunk_byte_start : ℕ
  pub terms : List Term
  pub per_xorb : Ranges

unfoldable pub lead : XorbMeta → ℕ → FileTermRecord → Walk → Result PlanError Cursor
lead meta range_start seg w =
    let c : Cursor = record {
      cumulative = w.cumulative;
      first_chunk_byte_start = w.first_chunk_byte_start;
      unpacked = seg.unpacked_segment_bytes;
      chunk_start = seg.chunk_index_start;
    } in
    if ltb w.cumulative range_start
    then trim_leading meta range_start (seg.chunk_index_end - seg.chunk_index_start) c
    else ok c

unfoldable pub trail : XorbMeta → ℕ → FileTermRecord → Cursor → Result PlanError Tail
trail meta range_end seg c =
    let t : Tail = record { chunk_end = seg.chunk_index_end; unpacked = c.unpacked } in
    if ltb range_end (add_u64 c.cumulative c.unpacked)
    then trim_trailing meta range_end c.cumulative (seg.chunk_index_end - c.chunk_start) t
    else ok t

unfoldable pub push : FileTermRecord → Cursor → Tail → ℕ × ℕ → Walk → Walk
push seg c t bytes w = record {
  cumulative = add_u64 c.cumulative t.unpacked;
  first_chunk_byte_start = c.first_chunk_byte_start;
  terms =
      w.terms
      ++ record {
        xorb = seg.xorb_hash;
        chunk_start = c.chunk_start;
        chunk_end = t.chunk_end;
        unpacked_length = t.unpacked;
      }
        ∷ [];
  per_xorb =
      push_range seg.xorb_hash
        (record {
          chunk_start = c.chunk_start;
          chunk_end = t.chunk_end;
          byte_start = bytes.0;
          byte_end = bytes.1;
        })
        w.per_xorb;
}

-- One round of the main loop.
unfoldable pub plan_segment : Metas → ℕ → ℕ → FileTermRecord → Walk → Result PlanError Walk
plan_segment metas range_start range_end seg w = do
  meta ← ok_or (lookup seg.xorb_hash metas) (unknown_xorb seg.xorb_hash)
  c ← lead meta range_start seg w
  t ← trail meta range_end seg c
  bytes ← byte_offset meta c.chunk_start t.chunk_end
  ok (push seg c t bytes w)

unfoldable pub plan_segments : Metas → ℕ → ℕ → List FileTermRecord → Walk → Result PlanError Walk
plan_segments metas range_start range_end [] w = ok w
plan_segments metas range_start range_end (seg ∷ segs) w = elim (ltb w.cumulative range_end) [
  | true ↦
      plan_segment metas range_start range_end seg w
      >>= plan_segments metas range_start range_end segs
  | false ↦ ok w
]

-- `sort_by_key(|r| r.chunk_start)`, which is stable.
unfoldable pub insert_range : FetchRange → List FetchRange → List FetchRange
insert_range r [] = r ∷ []
insert_range r (q ∷ qs) =
    if leb r.chunk_start q.chunk_start then r ∷ q ∷ qs else q ∷ insert_range r qs

unfoldable pub sort_ranges : List FetchRange → List FetchRange
sort_ranges [] = []
sort_ranges (r ∷ rs) = insert_range r (sort_ranges rs)

abbrev pub extend : FetchRange → FetchRange → FetchRange
extend cur r = record cur {
  chunk_end = max cur.chunk_end r.chunk_end;
  byte_end = max cur.byte_end r.byte_end;
}

-- The merge, with `cur` the range that grows.
unfoldable pub merge_from : FetchRange → List FetchRange → List FetchRange
merge_from cur [] = cur ∷ []
merge_from cur (r ∷ rs) = elim (leb r.chunk_start cur.chunk_end) [
  | true ↦ merge_from (extend cur r) rs
  | false ↦ cur ∷ merge_from r rs
]

unfoldable pub merge_ranges : List FetchRange → List FetchRange
merge_ranges [] = []
merge_ranges (r ∷ rs) = merge_from r rs

unfoldable pub merge_all : Ranges → Ranges
merge_all [] = []
merge_all ((hash, ranges) ∷ m) = (hash, merge_ranges (sort_ranges ranges)) ∷ merge_all m

-- `Ok(None)` is a range that starts at or past the end of the file.
unfoldable pub plan_reconstruction :
    FileRecord → Option (ℕ × ℕ) → Metas → Result PlanError (Option Plan)
plan_reconstruction file range metas = elim (clamp file.file_length range) [
  | past_eof ↦ ok none
  | empty_file ↦ ok (some empty)
  | within range_start range_end ↦ do
    (first, segs) ← skip_segments range_start 0 file.terms
    w ←
        plan_segments metas range_start range_end segs
          (record { cumulative = first; first_chunk_byte_start = first; terms = []; per_xorb = [] })
    ok (
        some (record {
          offset_into_first_range = sub_u64 range_start w.first_chunk_byte_start;
          terms = w.terms;
          fetch = merge_all w.per_xorb;
        }))
]
