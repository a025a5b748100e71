-- ===== src/Reconstruction/Trim.antt =====
-- The two trimming loops of `plan_reconstruction` in crates/xetcasd/src/reconstruction.rs: they end,
-- and they leave out whole chunks at the two ends of a segment and no more.
use xetcas.Prelude.{
  ℕ, zero, suc, ◌+◌, ◌-◌, ◌^◌, ◌≤◌, ◌<◌, ◌≡◌, refl, ◌∙◌, inl, inr, Bytes, ok, length, arith, ltb,
  ltb→lt, ltb→ge, Bool-cases,
}
use xetcas.Prelude.Words.{add_u64_of_lt, checked_sub_of_le}
use xetcas.Reconstruction.Meta.{XorbMeta, chunk_len}
use xetcas.Reconstruction.Plan.{Cursor, Tail, trim_leading, trim_trailing}
use xetcas.Reconstruction.Content.{
  Describes, chunk_len-length, span, length-span-suc, length-span_snoc,
}

-- What the leading loop does to its variables, over `n` chunks of content `f`: it skips `skipped` of
-- them that lie before the range, and the next one reaches into it if any does.
pub record Leads (f : ℕ → Bytes) (range_start n : ℕ) (c c' : Cursor) : Type 0 where
  pub skipped : ℕ
  pub within : skipped ≤ n
  pub starts : c'.chunk_start ≡ c.chunk_start + skipped
  pub moves : c'.cumulative ≡ c.cumulative + length (span f c.chunk_start skipped)
  pub firsts :
      c'.first_chunk_byte_start ≡ c.first_chunk_byte_start + length (span f c.chunk_start skipped)
  pub leaves : c'.unpacked + length (span f c.chunk_start skipped) ≡ c.unpacked
  pub before : c'.cumulative ≤ range_start
  pub reaches :
      range_start < c.cumulative + c.unpacked
      → (skipped < n) × (range_start < c'.cumulative + length (f c'.chunk_start))

-- The loop's variables after one more chunk of `l` bytes is skipped.
abbrev skip : Cursor → ℕ → Cursor
skip c l = record {
  cumulative = c.cumulative + l;
  first_chunk_byte_start = c.first_chunk_byte_start + l;
  unpacked = c.unpacked - l;
  chunk_start = suc c.chunk_start;
}

module _ (meta : XorbMeta) (range_start n l : ℕ) (c : Cursor)
    (len : chunk_len meta c.chunk_start ≡ ok l) (small : c.cumulative + l < 2 ^ 64) where
  lead_stops : range_start < c.cumulative + l → trim_leading meta range_start (suc n) c ≡ ok c
  unfolding trim_leading
  lead_stops h = ground (arith, len, add_u64_of_lt c.cumulative l small)

  lead_goes :
      c.cumulative + l ≤ range_start
      → l ≤ c.unpacked
      → c.first_chunk_byte_start ≤ c.cumulative
      → trim_leading meta range_start (suc n) c ≡ trim_leading meta range_start n (skip c l)
  unfolding trim_leading
  lead_goes h k first = ground (
    arith,
    len,
    add_u64_of_lt c.cumulative l small,
    add_u64_of_lt c.first_chunk_byte_start l,
    checked_sub_of_le c.unpacked l k,
  )

Leads-skip :
    {f : ℕ → Bytes} {range_start n : ℕ} {c c' : Cursor}
    → length (f c.chunk_start) ≤ c.unpacked
    → Leads f range_start n (skip c (length (f c.chunk_start))) c'
    → Leads f range_start (suc n) c c'
Leads-skip {f} {range_start} {n} {c} {c'} small h =
    let e = length-span-suc f c.chunk_start h.skipped in
    record {
      skipped = suc h.skipped;
      within = omega (arith, h.within);
      starts = omega (arith, h.starts);
      moves = omega (arith, e, h.moves);
      firsts = omega (arith, e, h.firsts);
      leaves = omega (arith, e, h.leaves);
      before = h.before;
      reaches = λ k. let (a, b) = h.reaches (omega arith) in (omega (arith, a), b);
    }

module _ {meta : XorbMeta} {f : ℕ → Bytes} (d : Describes meta f) (range_start : ℕ) where
  pub trim_leading-Leads :
      (n : ℕ) (c : Cursor)
      → c.chunk_start + n ≤ length meta.unpacked
      → c.unpacked ≡ length (span f c.chunk_start n)
      → c.cumulative ≤ range_start
      → c.first_chunk_byte_start ≤ c.cumulative
      → c.cumulative + c.unpacked < 2 ^ 64
      → (c' : Cursor) × (trim_leading meta range_start n c ≡ ok c') × Leads f range_start n c c'
  trim_leading-Leads zero c inside held before first small = (
    c,
    unfold trim_leading in refl,
    unfold span in
        record {
          skipped = 0;
          within = omega arith;
          starts = omega arith;
          moves = omega arith;
          firsts = omega arith;
          leaves = omega arith;
          before = before;
          reaches = λ h. absurd (unfold span in omega arith);
        },
  )
  trim_leading-Leads (suc n) c inside held before first small =
      let l = length (f c.chunk_start) in
      let len = chunk_len-length d c.chunk_start (omega arith) in
      let whole = length-span-suc f c.chunk_start n in
      let room : c.cumulative + l < 2 ^ 64 = omega (arith, whole) in
      elim (Bool-cases (ltb range_start (c.cumulative + l))) [
        | inl stop ↦ (
          c,
          lead_stops meta range_start n l c len room (ltb→lt _ _ stop),
          record {
            skipped = 0;
            within = omega arith;
            starts = omega arith;
            moves = unfold span in omega arith;
            firsts = unfold span in omega arith;
            leaves = unfold span in omega arith;
            before = before;
            reaches = λ h. (omega arith, ltb→lt _ _ stop);
          },
        )
        | inr go ↦
            let (c', e, h) =
              trim_leading-Leads n (skip c l) (omega arith) (omega (arith, whole)) (ltb→ge _ _ go)
                (omega arith) (omega (arith, whole)) in
            (
              c',
              lead_goes meta range_start n l c len room (ltb→ge _ _ go) (omega (arith, whole)) first
                  ∙ e,
              Leads-skip (omega (arith, whole)) h,
            )
      ]

-- What the trailing loop leaves of `n` chunks from `s` on: the first `kept`, which still reach to the
-- range's end; of them the last one is needed.
pub record Trails (f : ℕ → Bytes) (range_end cumulative s n : ℕ) (t' : Tail) : Type 0 where
  pub kept : ℕ
  pub within : kept ≤ n
  pub ends : t'.chunk_end ≡ s + kept
  pub holds : t'.unpacked ≡ length (span f s kept)
  pub covers : range_end ≤ cumulative + t'.unpacked
  pub needed : (m : ℕ) → suc m ≡ kept → cumulative + length (span f s m) < range_end

abbrev shorten : Tail → ℕ → Tail
shorten t l = record { chunk_end = t.chunk_end - 1; unpacked = t.unpacked - l }

module _ (meta : XorbMeta) (range_end cumulative n l : ℕ) (t : Tail)
    (len : chunk_len meta (t.chunk_end - 1) ≡ ok l) (fits : l ≤ t.unpacked)
    (small : cumulative + t.unpacked < 2 ^ 64) where
  trail_stops :
      cumulative + (t.unpacked - l) < range_end
      → trim_trailing meta range_end cumulative (suc n) t ≡ ok t
  unfolding trim_trailing
  trail_stops h =
      ground
        (arith, len, checked_sub_of_le t.unpacked l fits, add_u64_of_lt cumulative (t.unpacked - l))

  trail_goes :
      range_end ≤ cumulative + (t.unpacked - l)
      → trim_trailing meta range_end cumulative (suc n) t
        ≡ trim_trailing meta range_end cumulative n (shorten t l)
  unfolding trim_trailing
  trail_goes h =
      ground
        (arith, len, checked_sub_of_le t.unpacked l fits, add_u64_of_lt cumulative (t.unpacked - l))

module _ {meta : XorbMeta} {f : ℕ → Bytes} (d : Describes meta f) (range_end cumulative s : ℕ) where
  pub trim_trailing-Trails :
      (n : ℕ) (t : Tail)
      → s + n ≤ length meta.unpacked
      → t.chunk_end ≡ s + n
      → t.unpacked ≡ length (span f s n)
      → range_end ≤ cumulative + t.unpacked
      → cumulative + t.unpacked < 2 ^ 64
      → (t' : Tail) × (trim_trailing meta range_end cumulative n t ≡ ok t')
        × Trails f range_end cumulative s n t'
  trim_trailing-Trails zero t inside at_end held covers small = (
    t,
    unfold trim_trailing in refl,
    record {
      kept = 0;
      within = omega arith;
      ends = at_end;
      holds = held;
      covers = covers;
      needed = λ m e. absurd (omega arith);
    },
  )
  trim_trailing-Trails (suc n) t inside at_end held covers small =
      let e : t.chunk_end - 1 ≡ s + n = omega arith in
      let l = length (f (s + n)) in
      let len : chunk_len meta (t.chunk_end - 1) ≡ ok l =
        rw e (chunk_len-length d (s + n) (omega arith)) in
      let whole = length-span_snoc f s n in
      let fits : l ≤ t.unpacked = omega (arith, whole) in
      elim (Bool-cases (ltb (cumulative + (t.unpacked - l)) range_end)) [
        | inl stop ↦ (
          t,
          trail_stops meta range_end cumulative n l t len fits small (ltb→lt _ _ stop),
          record {
            kept = suc n;
            within = omega arith;
            ends = at_end;
            holds = held;
            covers = covers;
            needed =
                λ m k. let e : m ≡ n = omega arith in rw e (omega (arith, whole, ltb→lt _ _ stop));
          },
        )
        | inr go ↦
            let (t', e', h) =
              trim_trailing-Trails n (shorten t l) (omega arith) e (omega (arith, whole))
                (ltb→ge _ _ go) (omega arith) in
            (
              t',
              trail_goes meta range_end cumulative n l t len fits small (ltb→ge _ _ go) ∙ e',
              record {
                kept = h.kept;
                within = omega (arith, h.within);
                ends = h.ends;
                holds = h.holds;
                covers = h.covers;
                needed = h.needed;
              },
            )
      ]
