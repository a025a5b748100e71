-- ===== src/Shards/Accepted.antt =====
-- `build_records` (crates/xetcasd/src/routes/shards.rs): what holds of a shard that it accepts.
use xetcas.Prelude.{
  ℕ, ◌+◌, ◌*◌, ◌%◌, ◌^◌, ◌≡◌, refl, sym, ap, ◌∙◌, subst, inl, inr, Bool, true, false, Option-cases,
  not, ◌&&◌, some, none, List, [], ◌∷◌, ◌++◌, bytes_eq, bytes_eq→eq, lookup, length, ok, err, ◌>>=◌,
  map_err, fail_if, All, ◌==◌, bind-ok, ok-inj, map_err-ok, fail_if-ok, arith,
}
use xetcas.Contracts.Storage.{XorbRecord, FileTermRecord, FileRecord}
use xetcas.Contracts.Constants.{hash_bytes}
use xetcas.Contracts.Validate.Fields.{is_empty}
use xetcas.Contracts.Validate.Storage.{validate_file_record}
use xetcas.Index.{ChunkEntry}
use xetcas.Errors.{bad_request}
use xetcas.Shards.{
  Reason, Reply, file_hash_mismatch, verification_length, invalid_record, Hashing, ShardFile,
  ShardData, Xorbs, chunk_hash_at, check_terms, first_chunk, record_of, check_file, check_files,
  build_records,
}
use xetcas.Shards.Terms.{Backed, check_terms-Backed}
use xetcas.Shards.Chunks.{
  TermChunks, declared_bytes, check_terms-TermChunks, chunk_hash_at-IsChunkHash,
}
use xetcas.Shards.Mappings.{Corroborated, Result-cases, All-Corroborated}

-- What the server has checked of a file that it registers.
pub record Accepted (h : Hashing) (xorbs : Xorbs) (f : FileRecord) : Type 0 where
  pub backed : All (Backed xorbs) f.terms
  pub chunks : List (h.MerkleHash × ℕ)
  pub stored : TermChunks h xorbs f.verification_range_hashes 0 f.terms chunks
  pub measured : f.file_length ≡ declared_bytes f.terms % 2 ^ 64
  pub hashed : h.hex (h.file_hash chunks) ≡ f.file_hash
  pub valid : validate_file_record f ≡ ok tt

from_zero : (n : ℕ) → (0 + n) % 2 ^ 64 ≡ n % 2 ^ 64
from_zero n = omega arith

not-false : (b : Bool) → not b ≡ false → b ≡ true
not-false b h = ground arith

module _ (h : Hashing) (xorbs : Xorbs) (now : ℕ) where
  -- The steps of `check_file`, from the last one on.
  module _ (file : ShardFile) where
    abbrev validate : ℕ × List (h.MerkleHash × ℕ) → Reply (Unit {0})
    validate checked =
        map_err (λ e. bad_request (invalid_record e))
          (validate_file_record (record_of h now file checked.0))

    abbrev finish : ℕ × List (h.MerkleHash × ℕ) → Unit {0} → Reply FileRecord
    finish checked _ = ok (record_of h now file checked.0)

    abbrev compare_hash : ℕ × List (h.MerkleHash × ℕ) → Reply (Unit {0})
    compare_hash checked =
        fail_if (not (bytes_eq (h.hex (h.file_hash checked.1)) file.file_hash))
          (bad_request file_hash_mismatch)

    abbrev after_terms : ℕ × List (h.MerkleHash × ℕ) → Reply FileRecord
    after_terms checked = compare_hash checked >>= λ _. validate checked >>= finish checked

    abbrev measure : Unit {0} → Reply FileRecord
    measure _ = check_terms h xorbs file.verification 0 file.terms (0, []) >>= after_terms

    check_file-Accepted : (f : FileRecord) → check_file h xorbs now file ≡ ok f → Accepted h xorbs f
    unfolding check_file
    check_file-Accepted f e =
        let (_, _, h1) =
          bind-ok
            (fail_if
              (not (is_empty file.verification)
                && not (length file.verification == length file.terms * hash_bytes))
              (bad_request verification_length))
            measure f e in
        let (checked, e2, h2) =
          bind-ok (check_terms h xorbs file.verification 0 file.terms (0, [])) after_terms f h1 in
        let (_, e3, h3) =
          bind-ok (compare_hash checked) (λ _. validate checked >>= finish checked) f h2 in
        let (_, e4, h4) = bind-ok (validate checked) (finish checked) f h3 in
        let (cs, (stored, same, total)) =
          check_terms-TermChunks h xorbs file.verification 0 file.terms (0, []) checked e2
            (omega arith) in
        subst (Accepted h xorbs) (ok-inj (finish checked tt) refl h4) (record {
          backed = check_terms-Backed h xorbs file.verification 0 file.terms (0, []) checked e2;
          chunks = cs;
          stored = stored;
          measured = total ∙ from_zero (declared_bytes file.terms);
          hashed =
              ap (λ l. h.hex (h.file_hash l)) (sym same)
              ∙ bytes_eq→eq (h.hex (h.file_hash checked.1)) file.file_hash
                  (not-false _ (fail_if-ok _ _ e3));
          valid = map_err-ok _ _ tt e4;
        })

  no_xorb :
      (first : FileTermRecord) (terms : List FileTermRecord)
      → lookup first.xorb_hash xorbs ≡ none
      → first_chunk h xorbs (first ∷ terms) ≡ []
  unfolding first_chunk
  no_xorb first terms e = ground (arith, e)

  no_chunk :
      (first : FileTermRecord) (terms : List FileTermRecord) (r : XorbRecord) (x : Reason)
      → lookup first.xorb_hash xorbs ≡ some r
      → chunk_hash_at h r first.chunk_index_start ≡ err x
      → first_chunk h xorbs (first ∷ terms) ≡ []
  unfolding first_chunk
  no_chunk first terms r x e f = ground (arith, e, f)

  one_chunk :
      (first : FileTermRecord) (terms : List FileTermRecord) (r : XorbRecord) (a : h.MerkleHash)
      → lookup first.xorb_hash xorbs ≡ some r
      → chunk_hash_at h r first.chunk_index_start ≡ ok a
      → first_chunk h xorbs (first ∷ terms)
        ≡ record {
          chunk_hash = h.hex a;
          xorb_hash = first.xorb_hash;
          chunk_index = first.chunk_index_start;
        }
          ∷ []
  unfolding first_chunk
  one_chunk first terms r a e f = ground (arith, e, f)

  first_chunk-Corroborated :
      (terms : List FileTermRecord) → All (Corroborated h xorbs) (first_chunk h xorbs terms)
  unfolding first_chunk
  first_chunk-Corroborated [] = tt
  first_chunk-Corroborated (first ∷ terms) = elim (Option-cases (lookup first.xorb_hash xorbs)) [
    | inl e ↦ subst (All (Corroborated h xorbs)) (sym (no_xorb first terms e)) tt
    | inr (r, e) ↦ elim (Result-cases (chunk_hash_at h r first.chunk_index_start)) [
      | inl (x, f) ↦ subst (All (Corroborated h xorbs)) (sym (no_chunk first terms r x e f)) tt
      | inr (a, f) ↦ subst (All (Corroborated h xorbs)) (sym (one_chunk first terms r a e f)) (
        record {
          stored = r;
          found = e;
          hash = a;
          reads = f;
          at_index = chunk_hash_at-IsChunkHash h r first.chunk_index_start a f;
          named = refl;
        },
        tt,
      )
    ]
  ]

All-append {ℓ κ} :
    {A : Type ℓ} (P : A → Type κ) (xs ys : List A) → All P xs → All P ys → All P (xs ++ ys)
All-append P [] ys h k = k
All-append P (x ∷ xs) ys h k = (h.0, All-append P xs ys h.1 k)

module _ (h : Hashing) (xorbs : Xorbs) (now : ℕ) where
  check_files-Accepted :
      (files : List ShardFile) (done after : List FileRecord × List ChunkEntry)
      → check_files h xorbs now files done ≡ ok after
      → All (Accepted h xorbs) done.0
      → All (Corroborated h xorbs) done.1
      → All (Accepted h xorbs) after.0 × All (Corroborated h xorbs) after.1
  unfolding check_files
  check_files-Accepted [] done after e fs cs =
      let p = ok-inj _ refl e in
      (
        subst (λ q. All (Accepted h xorbs) q.0) p fs,
        subst (λ q. All (Corroborated h xorbs) q.1) p cs,
      )
  check_files-Accepted (file ∷ files) done after e fs cs =
      let (f, e1, h1) = bind-ok (check_file h xorbs now file) _ after e in
      check_files-Accepted files _ after h1
        (All-append (Accepted h xorbs) done.0 (f ∷ []) fs
          (check_file-Accepted h xorbs now file f e1, tt))
        (All-append (Corroborated h xorbs) done.1 (first_chunk h xorbs file.terms) cs
          (first_chunk-Corroborated h xorbs now file.terms))

-- A shard that `build_records` accepts yields only files whose terms each name a stored xorb and a
-- range of its chunks that is not empty and declare the bytes they decode to. The file's hash is that
-- over the chunks of its terms in order, each with the hash that stands at its index in the stored
-- record and the length that the record gives it; each term's range hash, if the shard has range
-- hashes, is that over the term's own chunks; the length is the sum of the declared bytes modulo 2 ^
-- 64; and the contract's validator accepts the file. The chunk entries are only such whose hash stands
-- at that index in the stored record.
pub build_records-Accepted :
    (h : Hashing) (xorbs : Xorbs) (now : ℕ) (data' : ShardData) (files : List FileRecord)
    (chunks : List ChunkEntry)
    → build_records h data' xorbs now ≡ ok (files, chunks)
    → All (Accepted h xorbs) files × All (Corroborated h xorbs) chunks
unfolding build_records
build_records-Accepted h xorbs now data' files chunks e =
    check_files-Accepted h xorbs now data'.files _ (files, chunks) e tt
      (All-Corroborated h xorbs data'.flagged_chunks)
