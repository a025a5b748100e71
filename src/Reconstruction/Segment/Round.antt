-- ===== src/Reconstruction/Segment/Round.antt =====
-- A whole round of the main loop of `plan_reconstruction` (crates/xetcasd/src/reconstruction.rs).
use xetcas.Prelude.{
  ℕ, ◌+◌, ◌-◌, ◌^◌, ◌≤◌, ◌<◌, ◌≡◌, refl, sym, ap, ap₂, ◌∙◌, inl, inr, some, [], ◌++◌, Bytes, ok,
  length, arith, lookup,
}
use xetcas.Prelude.Words.{add_u64_of_lt}
use xetcas.Contracts.Storage.{FileTermRecord}
use xetcas.Reconstruction.Meta.{XorbMeta, byte_offset}
use xetcas.Reconstruction.Plan.{Metas, Cursor, Tail, Walk, lead, trail, push, plan_segment}
use xetcas.Reconstruction.Content.{
  byte_offset-total, span, span-add, length-span_add, length-span_le,
}
use xetcas.Reconstruction.Segment.{Holds, Advances}
use xetcas.Reconstruction.Segment.Lead.{Led, lead-Led, start_cursor}
use xetcas.Reconstruction.Segment.Trail.{Trailed, trail-Trailed}

-- A run of chunks in three parts, and a run of none.
span-three :
    (f : ℕ → Bytes) (s k m rest n : ℕ)
    → n ≡ k + (m + rest)
    → span f s n ≡ span f s k ++ (span f (s + k) m ++ span f (s + k + m) rest)
span-three f s k m rest n e =
    rw e (span-add f s k (m + rest) ∙ ap (λ b. span f s k ++ b) (span-add f (s + k) m rest))

span-zero : (f : ℕ → Bytes) (s k : ℕ) → k ≡ 0 → span f s k ≡ []
unfolding span
span-zero f s k e = rw e

-- A round is its four steps.
plan_segment-steps :
    (metas : Metas) (range_start range_end : ℕ) (seg : FileTermRecord) (w : Walk) (meta : XorbMeta)
    (c : Cursor) (t : Tail) (b : ℕ × ℕ)
    → lookup seg.xorb_hash metas ≡ some meta
    → lead meta range_start seg w ≡ ok c
    → trail meta range_end seg c ≡ ok t
    → byte_offset meta c.chunk_start t.chunk_end ≡ ok b
    → plan_segment metas range_start range_end seg w ≡ ok (push seg c t b w)
unfolding plan_segment
plan_segment-steps metas range_start range_end seg w meta c t b em ec et eb =
    rw em (rw ec (rw et (rw eb)))

module _ {chunk : Bytes → ℕ → Bytes} (range_start range_end : ℕ) (seg : FileTermRecord) (w : Walk)
    (c : Cursor) (t : Tail) (b : ℕ × ℕ) where
  push-Advances :
      Led
        (chunk seg.xorb_hash)
        range_start
        range_end
        seg.chunk_index_start
        (seg.chunk_index_end - seg.chunk_index_start)
        (start_cursor seg w)
        c
      → Trailed
          (chunk seg.xorb_hash)
          range_end
          c.chunk_start
          (seg.chunk_index_end - c.chunk_start)
          c
          t
      → c.cumulative + t.unpacked < 2 ^ 64
      → Advances chunk range_start range_end seg w (push seg c t b w)
  unfolding push
  push-Advances l r small =
      let f = chunk seg.xorb_hash in
      let s = seg.chunk_index_start in
      let k = l.skipped in
      let m = r.kept in
      let rest = seg.chunk_index_end - c.chunk_start - m in
      let kept : t.chunk_end - c.chunk_start ≡ m = omega (arith, r.ends) in
      let kept' = ap (λ j. span f c.chunk_start j) kept in
      let content : span f c.chunk_start (t.chunk_end - c.chunk_start) ≡ span f (s + k) m =
        ap₂ (λ a j. span f a j) l.starts kept in
      let declared : t.unpacked ≡ length (span f c.chunk_start (t.chunk_end - c.chunk_start)) =
        r.holds ∙ ap length (sym kept') in
      let sum = add_u64_of_lt c.cumulative t.unpacked small in
      record {
        front = span f s k;
        term = record {
          xorb = seg.xorb_hash;
          chunk_start = c.chunk_start;
          chunk_end = t.chunk_end;
          unpacked_length = t.unpacked;
        };
        back = span f (s + k + m) rest;
        pushes = refl;
        splits =
            span-three f s k m rest (seg.chunk_index_end - s)
              (omega (arith, l.starts, l.within, r.within))
            ∙ ap (λ x. span f s k ++ (x ++ span f (s + k + m) rest)) (sym content);
        declares = declared;
        moves = omega (arith, sum, l.moves, declared);
        firsts = l.firsts;
        before = elim l.before [ inl a ↦ inl a | inr e ↦ inr (span-zero f s k e) ];
        after = elim r.after [
          | inl a ↦ inl (omega (arith, sum, a, r.holds))
          | inr e ↦ inr (span-zero f (s + k + m) rest (omega (arith, e)))
        ];
      }

module _ {metas : Metas} {chunk : Bytes → ℕ → Bytes} (range_start range_end : ℕ)
    (ordered : range_start < range_end) (seg : FileTermRecord) (w : Walk)
    (h : Holds metas chunk seg) (open_range : w.cumulative < range_end)
    (first : w.first_chunk_byte_start ≤ w.cumulative)
    (small : w.cumulative + seg.unpacked_segment_bytes < 2 ^ 64)
    (reached : range_start < w.cumulative + seg.unpacked_segment_bytes) where
  -- The chunks that are left after the leading ones, and their length.
  left_over :
      (c : Cursor)
      → Led
          (chunk seg.xorb_hash)
          range_start
          range_end
          seg.chunk_index_start
          (seg.chunk_index_end - seg.chunk_index_start)
          (start_cursor seg w)
          c
      → (c.chunk_start < seg.chunk_index_end)
        × (c.unpacked
            ≡ length
                (span (chunk seg.xorb_hash) c.chunk_start (seg.chunk_index_end - c.chunk_start)))
        × (c.cumulative + c.unpacked < 2 ^ 64)
  left_over c l =
      let f = chunk seg.xorb_hash in
      let s = seg.chunk_index_start in
      let n = seg.chunk_index_end - s in
      let k = l.skipped in
      let parts = length-span_add f s k (n - k) in
      let whole = ap (λ j. length (span f s j)) (rejoin k n l.within) in
      (
        omega (arith, l.starts, l.within),
        l.holds
            ∙ ap₂ (λ a b. length (span f a b)) (sym l.starts) (omega (arith, l.starts, l.within)),
        omega (arith, l.moves, l.holds, h.bytes, parts, whole),
      )
    where
      rejoin : (k n : ℕ) → k < n → k + (n - k) ≡ n
      rejoin k n h = omega arith

  Trailed-small :
      (c : Cursor) (t : Tail)
      → c.unpacked
        ≡ length (span (chunk seg.xorb_hash) c.chunk_start (seg.chunk_index_end - c.chunk_start))
      → c.cumulative + c.unpacked < 2 ^ 64
      → Trailed
          (chunk seg.xorb_hash)
          range_end
          c.chunk_start
          (seg.chunk_index_end - c.chunk_start)
          c
          t
      → c.cumulative + t.unpacked < 2 ^ 64
  Trailed-small c t held room r =
      omega
        (arith, r.holds, held, length-span_le (chunk seg.xorb_hash) c.chunk_start r.kept _ r.within)

  -- A round ends in a result, and does what `Advances` says.
  pub plan_segment-Advances :
      (w' : Walk) × (plan_segment metas range_start range_end seg w ≡ ok w')
      × Advances chunk range_start range_end seg w w'
  plan_segment-Advances =
      let (c, ec, l) =
        lead-Led range_start range_end ordered seg w h open_range first small reached in
      let (starts, held, room) = left_over c l in
      let (t, et, r) = trail-Trailed range_end seg h c starts held l.short room in
      let (b, eb) =
        byte_offset-total h.describes c.chunk_start t.chunk_end (omega (arith, r.ends, r.some_kept))
          (omega (arith, r.ends, r.within, starts, h.inside)) in
      (
        push seg c t b w,
        plan_segment-steps metas range_start range_end seg w h.meta c t b h.found ec et eb,
        push-Advances range_start range_end seg w c t b l r (Trailed-small c t held room r),
      )
