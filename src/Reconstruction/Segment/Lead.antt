-- ===== src/Reconstruction/Segment/Lead.antt =====
-- The leading chunks of a segment: the first half of a round of `plan_reconstruction`
-- (crates/xetcasd/src/reconstruction.rs).
use xetcas.Prelude.{
  ℕ, ◌+◌, ◌-◌, ◌^◌, ◌≤◌, ◌<◌, ◌≡◌, refl, ap, ap₂, ◌∙◌, ◌⊎◌, inl, inr, Bytes, ok, length, arith, ltb,
  ltb→lt, Bool-cases,
}
use xetcas.Contracts.Storage.{FileTermRecord}
use xetcas.Reconstruction.Plan.{Metas, Cursor, Walk, lead}
use xetcas.Reconstruction.Content.{span, length-span_add}
use xetcas.Reconstruction.Trim.{trim_leading-Leads}
use xetcas.Reconstruction.Segment.{Holds}

-- The variables when a segment's trimming starts.
abbrev pub start_cursor : FileTermRecord → Walk → Cursor
start_cursor seg w = record {
  cumulative = w.cumulative;
  first_chunk_byte_start = w.first_chunk_byte_start;
  unpacked = seg.unpacked_segment_bytes;
  chunk_start = seg.chunk_index_start;
}

-- What is left of the chunks from `s` to `e` after the leading ones: `front` and the rest.
pub record Led (f : ℕ → Bytes) (range_start range_end s n : ℕ) (c c' : Cursor) : Type 0 where
  pub skipped : ℕ
  pub within : skipped < n
  pub starts : c'.chunk_start ≡ s + skipped
  pub moves : c'.cumulative ≡ c.cumulative + length (span f s skipped)
  pub firsts : c'.first_chunk_byte_start ≡ c.first_chunk_byte_start + length (span f s skipped)
  pub holds : c'.unpacked ≡ length (span f (s + skipped) (n - skipped))
  pub before : (c.cumulative + length (span f s skipped) ≤ range_start) ⊎ (skipped ≡ 0)
  pub short : c'.cumulative < range_end

module _ {metas : Metas} {chunk : Bytes → ℕ → Bytes} (range_start range_end : ℕ)
    (ordered : range_start < range_end) (seg : FileTermRecord) (w : Walk)
    (h : Holds metas chunk seg) (open_range : w.cumulative < range_end)
    (first : w.first_chunk_byte_start ≤ w.cumulative)
    (small : w.cumulative + seg.unpacked_segment_bytes < 2 ^ 64)
    (reached : range_start < w.cumulative + seg.unpacked_segment_bytes) where
  pub lead-Led :
      (c' : Cursor) × (lead h.meta range_start seg w ≡ ok c')
      × Led
          (chunk seg.xorb_hash)
          range_start
          range_end
          seg.chunk_index_start
          (seg.chunk_index_end - seg.chunk_index_start)
          (start_cursor seg w)
          c'
  unfolding lead
  lead-Led =
      let f = chunk seg.xorb_hash in
      let s = seg.chunk_index_start in
      let n = seg.chunk_index_end - seg.chunk_index_start in
      elim (Bool-cases (ltb w.cumulative range_start)) [
        | inl early ↦
            let (c', e, l) =
              trim_leading-Leads h.describes range_start n (start_cursor seg w)
                (omega (arith, h.ordered, h.inside)) h.bytes (omega (arith, ltb→lt _ _ early)) first
                small in
            let (within, reach) = l.reaches reached in
            let parts = length-span_add f s l.skipped (n - l.skipped) in
            let whole : l.skipped + (n - l.skipped) ≡ n = omega (arith, within) in
            let whole' = ap (λ k. length (span f s k)) whole in
            (
              c',
              rw early e,
              record {
                skipped = l.skipped;
                within = within;
                starts = l.starts;
                moves = l.moves;
                firsts = l.firsts;
                holds = omega (arith, l.leaves, h.bytes, parts, whole');
                before = inl (omega (arith, l.moves, l.before));
                short = omega (arith, l.before);
              },
            )
        | inr late ↦ (
          start_cursor seg w,
          rw late,
          unfold span in
              record {
                skipped = 0;
                within = omega (arith, h.ordered);
                starts = omega arith;
                moves = omega arith;
                firsts = omega arith;
                holds = h.bytes ∙ ap₂ (λ a b. length (span f a b)) (omega arith) (omega arith);
                before = inr refl;
                short = open_range;
              },
        )
      ]
