-- ===== src/Reconstruction/Segment.antt =====
-- One round of the main loop of `plan_reconstruction` (crates/xetcasd/src/reconstruction.rs): what it
-- is to do. The children prove it of the leading and the trailing loop and of the whole round.
pub mod Lead
pub mod Trail
pub mod Round
use xetcas.Prelude.{
  ℕ, ◌+◌, ◌-◌, ◌≤◌, ◌<◌, ◌≡◌, ◌⊎◌, some, List, [], ◌∷◌, ◌++◌, Bytes, length, lookup,
}
use xetcas.Contracts.Storage.{FileTermRecord}
use xetcas.Reconstruction.Meta.{XorbMeta}
use xetcas.Reconstruction.Plan.{Term, Metas, Walk}
use xetcas.Reconstruction.Content.{Describes, span}

-- The store: what the index says of each xorb, and the content of each chunk.
module _ (metas : Metas) (chunk : Bytes → ℕ → Bytes) where
  -- What the upload of a shard has checked of a term (`build_records`): its xorb is there, its chunks
  -- are, and it declares their length.
  pub record Holds (seg : FileTermRecord) : Type 0 where
    pub meta : XorbMeta
    pub found : lookup seg.xorb_hash metas ≡ some meta
    pub describes : Describes meta (chunk seg.xorb_hash)
    pub ordered : seg.chunk_index_start < seg.chunk_index_end
    pub inside : seg.chunk_index_end ≤ length meta.unpacked
    pub bytes :
        seg.unpacked_segment_bytes
        ≡ length (
            span
              (chunk seg.xorb_hash)
              seg.chunk_index_start
              (seg.chunk_index_end - seg.chunk_index_start))

module _ (chunk : Bytes → ℕ → Bytes) where
  abbrev pub segment_content : FileTermRecord → Bytes
  segment_content seg =
      span (chunk seg.xorb_hash) seg.chunk_index_start (seg.chunk_index_end - seg.chunk_index_start)

  abbrev pub term_content : Term → Bytes
  term_content t = span (chunk t.xorb) t.chunk_start (t.chunk_end - t.chunk_start)

  -- The bytes of a file by its record, and of the terms of a plan.
  abbrev pub file_content : List FileTermRecord → Bytes
  file_content [] = []
  file_content (seg ∷ segs) = segment_content seg ++ file_content segs

  abbrev pub terms_content : List Term → Bytes
  terms_content [] = []
  terms_content (t ∷ ts) = term_content t ++ terms_content ts

  -- What one round does: it pushes `term`, which is the segment without `front` and `back`.
  pub record Advances (range_start range_end : ℕ) (seg : FileTermRecord) (w w' : Walk)
      : Type 0 where
    pub front : Bytes
    pub term : Term
    pub back : Bytes
    pub pushes : w'.terms ≡ w.terms ++ term ∷ []
    pub splits : segment_content seg ≡ front ++ (term_content term ++ back)
    pub declares : term.unpacked_length ≡ length (term_content term)
    pub moves : w'.cumulative ≡ w.cumulative + length front + length (term_content term)
    pub firsts : w'.first_chunk_byte_start ≡ w.first_chunk_byte_start + length front
    pub before : (w.cumulative + length front ≤ range_start) ⊎ (front ≡ [])
    pub after : (range_end ≤ w'.cumulative) ⊎ (back ≡ [])
