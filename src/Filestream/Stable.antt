-- ===== src/Filestream/Stable.antt =====
-- What crates/xetcasd/src/filestream.rs reads of a file stays what it is while the store grows.
use xetcas.Prelude.{
  ◌≡◌, refl, sym, ap, subst, ◌∙◌, inl, inr, Bool, true, false, Option-cases, some, List, [], ◌∷◌,
  Bytes, lookup, ok, err, ok_or, map_err, bind-ok, ok-inj, ok_or-some, map_err-ok, arith,
  if◌then◌else◌, All,
}
use xetcas.Contracts.Storage.{XorbRecord, FileTermRecord, FileRecord}
use xetcas.Errors.{internal}
use xetcas.Index.{Codec, Tables, get_xorbs}
use xetcas.Reconstruction.Meta.{from_record, byte_offset}
use xetcas.Route.{hashes_of}
use xetcas.Xorbs.{Store}
use xetcas.Filestream.{
  Decoding, Reply, index_failed, missing_xorb, bad_meta, hashing_failed, Segment, segment_of,
  segments_of, plan_segments, decode_segment, decode_segments, stream_file, content_sha256, concat,
}
use xetcas.Filestream.Lookup.{
  Indexed, Extends, no-entry, get_xorbs_into-Indexed, get_xorbs_into-stable,
}

module _ (codec : Codec) where
  -- The terms of a file that has segments are indexed.
  segment_of-Indexed :
      (t : Tables) (records : List (Bytes × XorbRecord)) (term : FileTermRecord) (segment : Segment)
      → ((j : Bytes) (r : XorbRecord) → lookup j records ≡ some r → Indexed codec t j)
      → segment_of records term ≡ ok segment
      → Indexed codec t term.xorb_hash × (segment.hash ≡ term.xorb_hash)
  unfolding segment_of
  segment_of-Indexed t records term segment i h =
      let (r, e, h1) =
        bind-ok (ok_or (lookup term.xorb_hash records) (internal (missing_xorb term.xorb_hash))) _
          segment h in
      let (span, _, h2) =
        bind-ok
          (map_err (λ e. internal (bad_meta e))
            (byte_offset (from_record r) term.chunk_index_start term.chunk_index_end))
          _ segment h1 in
      (i term.xorb_hash r (ok_or-some _ _ r e), ap (λ x. x.hash) (sym (ok-inj (ok _) refl h2)))

  segments_of-Indexed :
      (t : Tables) (records : List (Bytes × XorbRecord)) (terms : List FileTermRecord)
      (segments : List Segment)
      → ((j : Bytes) (r : XorbRecord) → lookup j records ≡ some r → Indexed codec t j)
      → segments_of records terms ≡ ok segments
      → All (Indexed codec t) (hashes_of terms) × All (λ g. Indexed codec t g.hash) segments
  unfolding segments_of hashes_of
  segments_of-Indexed t records [] segments i h =
      (tt, subst (All (λ g. Indexed codec t g.hash)) (ok-inj (ok []) refl h) tt)
  segments_of-Indexed t records (term ∷ terms) segments i h =
      let (g, e, h1) = bind-ok (segment_of records term) _ segments h in
      let (gs, e', h2) = bind-ok (segments_of records terms) _ segments h1 in
      let (known, same) = segment_of-Indexed t records term g i e in
      let (all, all') = segments_of-Indexed t records terms gs i e' in
      (
        (known, all),
        subst (All (λ x. Indexed codec t x.hash)) (ok-inj (ok (g ∷ gs)) refl h2)
            (subst (Indexed codec t) (sym same) known, all'),
      )

  plan_segments-Indexed :
      (file : FileRecord) (s : Store) (segments : List Segment)
      → plan_segments codec file s ≡ ok segments
      → All (Indexed codec s.index) (hashes_of file.terms)
        × All (λ g. Indexed codec s.index g.hash) segments
  unfolding plan_segments
  plan_segments-Indexed file s segments h =
      let (records, e, h1) =
        bind-ok
          (map_err (λ e. internal (index_failed e))
            (get_xorbs codec (hashes_of file.terms) s.index))
          _ segments h in
      segments_of-Indexed s.index records file.terms segments
        (λ j r l.
          get_xorbs_into-Indexed codec [] records (hashes_of file.terms) s.index j r
            (map_err-ok _ _ records e) (λ q n. absurd (no-entry j q n)) l)
        h1

  plan_segments-stable :
      (file : FileRecord) (s s' : Store)
      → Extends codec s s'
      → All (Indexed codec s.index) (hashes_of file.terms)
      → plan_segments codec file s' ≡ plan_segments codec file s
  unfolding plan_segments
  plan_segments-stable file s s' x a =
      rw (get_xorbs_into-stable codec s s' [] (hashes_of file.terms) x a) refl

  module _ (decoding : Decoding) where
    decode_segment-found :
        (objects : List (Bytes × Bytes)) (g : Segment)
        → (decode_segment decoding objects g).1 ≡ false
        → (object : Bytes) × (lookup g.hash objects ≡ some object)
    unfolding decode_segment
    decode_segment-found objects g h = elim (Option-cases (lookup g.hash objects)) [
      | inl n ↦ absurd (ground arith)
      | inr (object, e) ↦ (object, e)
    ]

    decode_segment-same :
        (objects objects' : List (Bytes × Bytes)) (g : Segment) (object : Bytes)
        → lookup g.hash objects ≡ some object
        → lookup g.hash objects' ≡ some object
        → decode_segment decoding objects' g ≡ decode_segment decoding objects g
    unfolding decode_segment
    decode_segment-same objects objects' g object e e' = ground arith

    decode_segments-cons :
        (objects : List (Bytes × Bytes)) (g : Segment) (gs : List Segment)
        → (decode_segments decoding objects (g ∷ gs)).1 ≡ false
        → ((decode_segment decoding objects g).1 ≡ false)
          × ((decode_segments decoding objects gs).1 ≡ false)
    unfolding decode_segments
    decode_segments-cons objects g gs h = ground arith

    decode_segments-stable :
        (s s' : Store) (segments : List Segment)
        → Extends codec s s'
        → All (λ g. Indexed codec s.index g.hash) segments
        → (decode_segments decoding s.objects segments).1 ≡ false
        → decode_segments decoding s'.objects segments ≡ decode_segments decoding s.objects segments
    unfolding decode_segments
    decode_segments-stable s s' [] x a h = refl
    decode_segments-stable s s' (g ∷ gs) x (i, a) h =
        let (f, later) = (decode_segments-cons s.objects g gs h) in
        let (object, e) = decode_segment-found s.objects g f in
        let first = decode_segment-same s.objects s'.objects g object e (x.1 g.hash object i e) in
        let rest = decode_segments-stable s s' gs x a later in rw (first, rest) refl

    stream_file-planned :
        (file : FileRecord) (s : Store) (out : List Bytes × Bool)
        → stream_file decoding codec file s ≡ ok out
        → (segments : List Segment) × (plan_segments codec file s ≡ ok segments)
          × (decode_segments decoding s.objects segments ≡ out)
    unfolding stream_file
    stream_file-planned file s out h =
        let (segments, e, h1) = bind-ok (plan_segments codec file s) _ out h in
        (segments, e, ok-inj (ok _) refl h1)

    stream_file-segments :
        (file : FileRecord) (s : Store) (segments : List Segment)
        → plan_segments codec file s ≡ ok segments
        → stream_file decoding codec file s ≡ ok (decode_segments decoding s.objects segments)
    unfolding stream_file
    stream_file-segments file s segments h = rw h refl

    abbrev hash_of : List Bytes × Bool → Reply Bytes
    hash_of out =
        if out.1 then err (internal hashing_failed) else ok (decoding.sha256_hex (concat out.0))

    hash-out :
        (out : List Bytes × Bool) (hash : Bytes)
        → hash_of out ≡ ok hash
        → (out.1 ≡ false) × (decoding.sha256_hex (concat out.0) ≡ hash)
    hash-out (chunks, true) hash h = absurd (cc)
    hash-out (chunks, false) hash h = (refl, ok-inj (ok _) refl h)

    -- A content hash is that of the stream's chunks, which come without an error.
    pub content_sha256-streamed :
        (file : FileRecord) (s : Store) (hash : Bytes)
        → content_sha256 decoding codec file s ≡ ok hash
        → (out : List Bytes × Bool) × (stream_file decoding codec file s ≡ ok out)
          × ((out.1 ≡ false) × (decoding.sha256_hex (concat out.0) ≡ hash))
    unfolding content_sha256
    content_sha256-streamed file s hash h =
        let (out, e, h1) = bind-ok (stream_file decoding codec file s) hash_of hash h in
        (out, e, hash-out out hash h1)

    content_sha256-of :
        (file : FileRecord) (s : Store) (out : List Bytes × Bool)
        → stream_file decoding codec file s ≡ ok out
        → out.1 ≡ false
        → content_sha256 decoding codec file s ≡ ok (decoding.sha256_hex (concat out.0))
    unfolding content_sha256
    content_sha256-of file s out h n = rw (h, n) refl

    -- The file's content hash, once it is known, stays the same.
    pub content_sha256-stable :
        (file : FileRecord) (s s' : Store) (hash : Bytes)
        → Extends codec s s'
        → content_sha256 decoding codec file s ≡ ok hash
        → content_sha256 decoding codec file s' ≡ ok hash
    content_sha256-stable file s s' hash x h =
        let (out, e, (n, p)) = content_sha256-streamed file s hash h in
        let (segments, e', d) = stream_file-planned file s out e in
        let (a, b) = plan_segments-Indexed file s segments e' in
        let planned = plan_segments-stable file s s' x a ∙ e' in
        let same = decode_segments-stable s s' segments x b (ap (λ o. o.1) d ∙ n) ∙ d in
        content_sha256-of file s' out (stream_file-segments file s' segments planned ∙ ap ok same) n
        ∙ ap ok p
