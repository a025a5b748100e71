-- ===== src/Reconstruction/Segment/Trail.antt =====
-- The trailing chunks of a segment: the second half of a round of `plan_reconstruction`
-- (crates/xetcasd/src/reconstruction.rs).
use xetcas.Prelude.{
  ℕ, zero, suc, ◌+◌, ◌-◌, ◌^◌, ◌≤◌, ◌<◌, ◌≡◌, refl, ◌∙◌, ◌⊎◌, inl, inr, Bytes, ok, length, arith,
  ltb, lt→ltb, ge→ltb, ltb→lt, ltb→ge, Bool-cases,
}
use xetcas.Prelude.Words.{add_u64_of_lt}
use xetcas.Contracts.Storage.{FileTermRecord}
use xetcas.Reconstruction.Plan.{Metas, Cursor, Tail, trail, trim_trailing}
use xetcas.Reconstruction.Content.{span}
use xetcas.Reconstruction.Trim.{trim_trailing-Trails}
use xetcas.Reconstruction.Segment.{Holds}

-- What is left of the chunks that the cursor has not skipped.
pub record Trailed (f : ℕ → Bytes) (range_end s n : ℕ) (c : Cursor) (t : Tail) : Type 0 where
  pub kept : ℕ
  pub some_kept : 0 < kept
  pub within : kept ≤ n
  pub ends : t.chunk_end ≡ s + kept
  pub holds : t.unpacked ≡ length (span f s kept)
  pub after : (range_end ≤ c.cumulative + length (span f s kept)) ⊎ (kept ≡ n)

-- Some bytes come from some chunk.
keeps_some : (f : ℕ → Bytes) (s k : ℕ) → 0 < length (span f s k) → 0 < k
unfolding span
keeps_some f s zero h = absurd (omega arith)
keeps_some f s (suc k) h = omega arith

module _ {metas : Metas} {chunk : Bytes → ℕ → Bytes} (range_end : ℕ) (seg : FileTermRecord)
    (h : Holds metas chunk seg) (c : Cursor) (starts : c.chunk_start < seg.chunk_index_end)
    (held : c.unpacked
      ≡ length (span (chunk seg.xorb_hash) c.chunk_start (seg.chunk_index_end - c.chunk_start)))
    (short : c.cumulative < range_end) (small : c.cumulative + c.unpacked < 2 ^ 64) where
  trail_over :
      range_end < c.cumulative + c.unpacked
      → trail h.meta range_end seg c
        ≡ trim_trailing h.meta range_end c.cumulative
            (seg.chunk_index_end - c.chunk_start)
            (record { chunk_end = seg.chunk_index_end; unpacked = c.unpacked })
  unfolding trail
  trail_over k = rw (add_u64_of_lt c.cumulative c.unpacked small) (rw (lt→ltb _ _ k))

  trail_fits :
      c.cumulative + c.unpacked ≤ range_end
      → trail h.meta range_end seg c
        ≡ ok (record { chunk_end = seg.chunk_index_end; unpacked = c.unpacked })
  unfolding trail
  trail_fits k = rw (add_u64_of_lt c.cumulative c.unpacked small) (rw (ge→ltb _ _ k))

  pub trail-Trailed :
      (t : Tail) × (trail h.meta range_end seg c ≡ ok t)
      × Trailed
          (chunk seg.xorb_hash)
          range_end
          c.chunk_start
          (seg.chunk_index_end - c.chunk_start)
          c
          t
  trail-Trailed =
      let f = chunk seg.xorb_hash in
      let n = seg.chunk_index_end - c.chunk_start in
      let t0 : Tail = record { chunk_end = seg.chunk_index_end; unpacked = c.unpacked } in
      elim (Bool-cases (ltb range_end (c.cumulative + c.unpacked))) [
        | inl over ↦
            let (t, e, l) =
              trim_trailing-Trails h.describes range_end c.cumulative c.chunk_start n t0
                (omega (arith, h.inside)) (omega arith) held (omega (arith, ltb→lt _ _ over))
                small in
            (
              t,
              trail_over (ltb→lt _ _ over) ∙ e,
              record {
                kept = l.kept;
                some_kept = keeps_some f c.chunk_start l.kept (omega (arith, l.covers, l.holds));
                within = l.within;
                ends = l.ends;
                holds = l.holds;
                after = inl (omega (arith, l.covers, l.holds));
              },
            )
        | inr fits ↦ (
          t0,
          trail_fits (ltb→ge _ _ fits),
          record {
            kept = n;
            some_kept = omega arith;
            within = omega arith;
            ends = omega arith;
            holds = held;
            after = inr refl;
          },
        )
      ]
