-- ===== src/Shards/Served.antt =====
-- From the upload of a shard (crates/xetcasd/src/routes/shards.rs) to the reconstruction of its files
-- (crates/xetcasd/src/routes/reconstructions.rs): what `build_records` has checked is what the planner
-- needs.
use xetcas.Prelude.{
  subst, Any, here, there, ℕ, ◌+◌, ◌-◌, ◌^◌, ◌≤◌, ◌<◌, min, ◌≡◌, refl, sym, ap, ◌∙◌, some, List, [],
  ◌∷◌, Bytes, lookup, length, length-append, ok, All, arith, take, drop, ok-inj,
}
use xetcas.Contracts.Storage.{XorbRecord, FileTermRecord, FileRecord}
use xetcas.Contracts.Validate.StorageLaws.{total_segments, file_record-accepts}
use xetcas.Reconstruction.Meta.{from_record, num_chunks, unpacked_len}
use xetcas.Reconstruction.Plan.{Plan, Metas, plan_reconstruction}
use xetcas.Reconstruction.Content.{Describes, num_chunks-length, unpacked_len-length}
use xetcas.Reconstruction.Segment.{Holds, segment_content, file_content, terms_content}
use xetcas.Reconstruction.Walk.{Declares}
use xetcas.Reconstruction.Refines.{plan_reconstruction-content}
use xetcas.Index.{ChunkEntry}
use xetcas.Shards.{Hashing, ShardData, Xorbs, build_records}
use xetcas.Shards.Terms.{Backed}
use xetcas.Shards.Accepted.{Accepted, build_records-Accepted}

-- `records.iter().map(|(hash, record)| (hash, XorbMeta::from_record(record)))`
unfoldable pub metas_of : Xorbs → Metas
metas_of [] = []
metas_of ((hash, record') ∷ xorbs) = (hash, from_record record') ∷ metas_of xorbs

lookup-metas_of :
    (xorbs : Xorbs) (hash : Bytes) (r : XorbRecord)
    → lookup hash xorbs ≡ some r
    → lookup hash (metas_of xorbs) ≡ some (from_record r)
unfolding metas_of lookup
lookup-metas_of [] hash r e = absurd (cc)
lookup-metas_of ((j, q) ∷ xorbs) hash r e = ground (arith, e, lookup-metas_of xorbs hash r)

-- The records of the xorbs describe the stored chunks: what the upload of a xorb has verified.
abbrev pub Verified : Xorbs → (Bytes → ℕ → Bytes) → Type 0
Verified xorbs chunk =
    (hash : Bytes) (r : XorbRecord)
    → lookup hash xorbs ≡ some r
    → Describes (from_record r) (chunk hash)

module _ (xorbs : Xorbs) (chunk : Bytes → ℕ → Bytes) (verified : Verified xorbs chunk) where
  below :
      (r : XorbRecord) (n : ℕ) {f : ℕ → Bytes}
      → Describes (from_record r) f
      → n ≤ num_chunks (from_record r)
      → n ≤ length r.unpacked_chunk_offsets
  unfolding from_record
  below r n d h = omega (arith, h, num_chunks-length d)

  Backed-Holds : (term : FileTermRecord) → Backed xorbs term → Holds (metas_of xorbs) chunk term
  unfolding from_record
  Backed-Holds term b =
      let d = verified term.xorb_hash b.stored b.found in
      let n = term.chunk_index_end - term.chunk_index_start in
      let inside : term.chunk_index_end ≤ length b.stored.unpacked_chunk_offsets =
        below b.stored term.chunk_index_end d b.inside in
      let e : term.chunk_index_start + n ≡ term.chunk_index_end = omega (arith, b.ordered) in
      let measured = unpacked_len-length d term.chunk_index_start n (omega (arith, inside, e)) in
      record {
        meta = from_record b.stored;
        found = lookup-metas_of xorbs term.xorb_hash b.stored b.found;
        describes = d;
        ordered = b.ordered;
        inside = inside;
        bytes =
            ok-inj _ b.declares
              (ap (unpacked_len (from_record b.stored) term.chunk_index_start) (sym e) ∙ measured);
      }

  All-Holds :
      (terms : List FileTermRecord)
      → All (Backed xorbs) terms
      → All (Holds (metas_of xorbs) chunk) terms
  All-Holds [] b = tt
  All-Holds (t ∷ ts) b = (Backed-Holds t b.0, All-Holds ts b.1)

total_segments-length :
    (metas : Metas) (chunk : Bytes → ℕ → Bytes) (terms : List FileTermRecord)
    → All (Holds metas chunk) terms
    → total_segments terms ≡ length (file_content chunk terms)
total_segments-length metas chunk [] hs = refl
total_segments-length metas chunk (t ∷ ts) hs = omega (
  arith,
  hs.0.bytes,
  total_segments-length metas chunk ts hs.1,
  length-append (segment_content chunk t) (file_content chunk ts),
)

-- What holds of every entry holds of one among them.
member {ℓ κ} :
    {A : Type ℓ} (P : A → Type κ) (a : A) (xs : List A) → All P xs → Any (λ x. x ≡ a) xs → P a
member P a (x ∷ xs) h (here e) = subst P e h.0
member P a (x ∷ xs) h (there m) = member P a xs h.1 m
member P a [] h m = elim m [ ]

-- Each file that `build_records` yields from a shard, while the records of the stored xorbs describe
-- their chunks, is served: for each range that is not empty and starts inside the file, below 2^64
-- bytes, there is a plan, and what a client reads by it are the bytes of the file's chunks in the
-- range.
pub build_records-plan_reconstruction :
    (h : Hashing) (xorbs : Xorbs) (now : ℕ) (data' : ShardData) (files : List FileRecord)
    (chunks : List ChunkEntry) (chunk : Bytes → ℕ → Bytes) (file : FileRecord) (start end : ℕ)
    → Verified xorbs chunk
    → build_records h data' xorbs now ≡ ok (files, chunks)
    → Any (λ f. f ≡ file) files
    → total_segments file.terms < 2 ^ 64
    → start < end
    → start < file.file_length
    → (plan : Plan) × (plan_reconstruction file (some (start, end)) (metas_of xorbs)
        ≡ ok (some plan))
      × (take
            (min end file.file_length - start)
            (drop plan.offset_into_first_range (terms_content chunk plan.terms))
          ≡ take (min end file.file_length - start) (drop start (file_content chunk file.terms)))
      × All (Declares chunk) plan.terms
build_records-plan_reconstruction h xorbs now data' files chunks chunk file start end verified built
      among small ordered inside =
    let accepted = (build_records-Accepted h xorbs now data' files chunks built).0 in
    let a = member (Accepted h xorbs) file files accepted among in
    let hs = All-Holds xorbs chunk verified file.terms a.backed in
    let total = total_segments-length (metas_of xorbs) chunk file.terms hs in
    let sums = ((file_record-accepts file small).0 a.valid).1.1.1.1 in
    plan_reconstruction-content (metas_of xorbs) chunk file start end hs (sym sums ∙ total)
      (omega (arith, sums)) ordered inside
