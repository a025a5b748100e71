-- ===== src/Reconstruction/Fetch/Frames.antt =====
-- `XorbMeta::byte_offset` (crates/xetcasd/src/reconstruction.rs) under the merge of fetch ranges.
use xetcas.Prelude.{
  ℕ, ◌-◌, ◌≤◌, ◌<◌, ◌≡◌, inl, inr, Option, none, some, List, ok, ok_or, fail_if, leb, max,
  get_elem?, arith, ◌>>=◌, leb→le, Bool-cases, leb→gt, Result, err,
}
use xetcas.Reconstruction.Meta.{
  XorbMeta, num_chunks, offset_before, byte_offset, panicked, PlanError,
}

-- What `byte_offset` looks up.
pub record FrameRange (meta : XorbMeta) (start end lo hi : ℕ) : Type 0 where
  pub inside : end ≤ num_chunks meta
  pub ordered : start < end
  pub from : offset_before meta.boundary start ≡ ok lo
  pub to : get_elem? meta.boundary (end - 1) ≡ some hi

abbrev pair : ℕ → ℕ → Result PlanError (ℕ × ℕ)
pair l h = ok (l, h)

abbrev both : Result PlanError ℕ → Option ℕ → Result PlanError (ℕ × ℕ)
both m o = m >>= λ l. ok_or o panicked >>= pair l

two_steps :
    (m : Result PlanError ℕ) (o : Option ℕ) (lo hi : ℕ)
    → both m o ≡ ok (lo, hi)
    → (m ≡ ok lo) × (o ≡ some hi)
two_steps (ok l) (some h) lo hi e = ground arith
two_steps (ok l) none lo hi e = absurd (cc)
two_steps (err x) o lo hi e = absurd (cc)

-- The test in front.
in_range :
    (meta : XorbMeta) (start end lo hi : ℕ)
    → byte_offset meta start end ≡ ok (lo, hi)
    → (end ≤ num_chunks meta)
      × (start < end)
      × (both (offset_before meta.boundary start) (get_elem? meta.boundary (end - 1)) ≡ ok (lo, hi))
unfolding byte_offset fail_if
in_range meta start end lo hi e = ground arith

pub byte_offset-FrameRange :
    (meta : XorbMeta) (start end lo hi : ℕ)
    → byte_offset meta start end ≡ ok (lo, hi)
    → FrameRange meta start end lo hi
byte_offset-FrameRange meta start end lo hi e =
    let (inside, ordered, steps) = in_range meta start end lo hi e in
    let (from, to) = two_steps _ _ lo hi steps in
    record { inside = inside; ordered = ordered; from = from; to = to }

pub FrameRange-byte_offset :
    (meta : XorbMeta) (start end lo hi : ℕ)
    → FrameRange meta start end lo hi
    → byte_offset meta start end ≡ ok (lo, hi)
unfolding byte_offset fail_if
FrameRange-byte_offset meta start end lo hi f = ground (arith, f.inside, f.ordered, f.from, f.to)

-- The offsets go up.
abbrev pub Rises : List ℕ → Type 0
Rises offsets =
    (i j a b : ℕ) → i ≤ j → get_elem? offsets i ≡ some a → get_elem? offsets j ≡ some b → a ≤ b

-- Two ranges that meet have together the bytes from the first's start to the later end.
pub byte_offset-max :
    (meta : XorbMeta) (start middle end end' lo lo' hi hi' : ℕ)
    → Rises meta.boundary
    → byte_offset meta start end ≡ ok (lo, hi)
    → byte_offset meta middle end' ≡ ok (lo', hi')
    → byte_offset meta start (max end end') ≡ ok (lo, max hi hi')
byte_offset-max meta start middle end end' lo lo' hi hi' rises e e' =
    let f = byte_offset-FrameRange meta start end lo hi e in
    let f' = byte_offset-FrameRange meta middle end' lo' hi' e' in
    FrameRange-byte_offset meta start (max end end') lo (max hi hi')
      (elim (Bool-cases (leb end end')) [
        | inl t ↦
            let before = leb→le end end' t in
            let m : max end end' ≡ end' = omega arith in
            let up = rises (end - 1) (end' - 1) hi hi' (omega arith) f.to f'.to in
            let n : max hi hi' ≡ hi' = omega arith in
            rw (m, n)
              (record {
                inside = f'.inside;
                ordered = omega (arith, f.ordered);
                from = f.from;
                to = f'.to;
              })
        | inr t ↦
            let after = leb→gt end end' t in
            let m : max end end' ≡ end = omega arith in
            let up = rises (end' - 1) (end - 1) hi' hi (omega arith) f'.to f.to in
            let n : max hi hi' ≡ hi = omega arith in rw (m, n) f
      ])
