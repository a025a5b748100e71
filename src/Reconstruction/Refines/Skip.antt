-- ===== src/Reconstruction/Refines/Skip.antt =====
-- The first loop of `plan_reconstruction` (crates/xetcasd/src/reconstruction.rs): it finds the segment
-- in which the range starts.
use xetcas.Prelude.{
  ℕ, ◌+◌, ◌^◌, ◌≤◌, ◌<◌, ◌≡◌, refl, sym, ap, ◌∙◌, inl, inr, List, [], ◌∷◌, ◌++◌, append_assoc,
  Bytes, ok, length, length-append, arith, ltb, ge→ltb, ltb→lt, ltb→ge, Bool-cases, All,
}
use xetcas.Prelude.Words.{add_u64, add_u64_of_lt}
use xetcas.Contracts.Storage.{FileTermRecord}
use xetcas.Reconstruction.Plan.{Metas, skip_segments}
use xetcas.Reconstruction.Segment.{Holds, segment_content, file_content}

module _ (range_start cumulative : ℕ) (seg : FileTermRecord) (segs : List FileTermRecord)
    (sum : add_u64 cumulative seg.unpacked_segment_bytes
      ≡ cumulative + seg.unpacked_segment_bytes) where
  skip_stops :
      range_start < cumulative + seg.unpacked_segment_bytes
      → skip_segments range_start cumulative (seg ∷ segs) ≡ ok (cumulative, seg ∷ segs)
  unfolding skip_segments
  skip_stops h = ground (arith, sum)

  skip_goes :
      cumulative + seg.unpacked_segment_bytes ≤ range_start
      → skip_segments range_start cumulative (seg ∷ segs)
        ≡ skip_segments range_start (cumulative + seg.unpacked_segment_bytes) segs
  unfolding skip_segments
  skip_goes h = rw sum (rw (ge→ltb range_start _ h))

module _ (metas : Metas) (chunk : Bytes → ℕ → Bytes) where
  -- What the first loop finds: the segments from the first one that reaches into the range.
  pub record Skips (range_start cumulative : ℕ) (segs : List FileTermRecord) (first : ℕ)
      (left : List FileTermRecord) : Type 0 where
    pub dropped : Bytes
    pub head : FileTermRecord
    pub more : List FileTermRecord
    pub found : left ≡ head ∷ more
    pub splits :
        file_content chunk segs ≡ dropped ++ (segment_content chunk head ++ file_content chunk more)
    pub firsts : first ≡ cumulative + length dropped
    pub before : first ≤ range_start
    pub reaches : range_start < first + length (segment_content chunk head)
    pub holds : Holds metas chunk head
    pub holds_more : All (Holds metas chunk) more

  pub skip_segments-Skips :
      (range_start cumulative : ℕ) (segs : List FileTermRecord)
      → All (Holds metas chunk) segs
      → cumulative ≤ range_start
      → range_start < cumulative + length (file_content chunk segs)
      → cumulative + length (file_content chunk segs) < 2 ^ 64
      → (first : ℕ) × (left : List FileTermRecord) × (skip_segments range_start cumulative segs
          ≡ ok (first, left))
        × Skips range_start cumulative segs first left
  skip_segments-Skips range_start cumulative [] hs before reach small = absurd (omega arith)
  skip_segments-Skips range_start cumulative (seg ∷ segs) hs before reach small =
      let size = length-append (segment_content chunk seg) (file_content chunk segs) in
      let n = seg.unpacked_segment_bytes in
      let sum = add_u64_of_lt cumulative n (omega (arith, size, hs.0.bytes)) in
      elim (Bool-cases (ltb range_start (cumulative + n))) [
        | inl stop ↦ (
          cumulative,
          seg ∷ segs,
          skip_stops range_start cumulative seg segs sum (ltb→lt _ _ stop),
          record {
            dropped = [];
            head = seg;
            more = segs;
            found = refl;
            splits = refl;
            firsts = omega arith;
            before = before;
            reaches = omega (arith, ltb→lt _ _ stop, hs.0.bytes);
            holds = hs.0;
            holds_more = hs.1;
          },
        )
        | inr go ↦
            let (first, left, e, s) =
              skip_segments-Skips range_start (cumulative + n) segs hs.1 (ltb→ge _ _ go)
                (omega (arith, size, hs.0.bytes)) (omega (arith, size, hs.0.bytes)) in
            (
              first,
              left,
              skip_goes range_start cumulative seg segs sum (ltb→ge _ _ go) ∙ e,
              record {
                dropped = segment_content chunk seg ++ s.dropped;
                head = s.head;
                more = s.more;
                found = s.found;
                splits =
                    ap (λ x. segment_content chunk seg ++ x) s.splits
                    ∙ sym (append_assoc (segment_content chunk seg) s.dropped _);
                firsts = omega (
                  arith,
                  s.firsts,
                  hs.0.bytes,
                  length-append (segment_content chunk seg) s.dropped,
                );
                before = s.before;
                reaches = s.reaches;
                holds = s.holds;
                holds_more = s.holds_more;
              },
            )
      ]
