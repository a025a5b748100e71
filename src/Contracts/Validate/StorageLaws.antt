-- ===== src/Contracts/Validate/StorageLaws.antt =====
-- What the validators of storage.proto accept (crates/xetcas-contracts/src/v1/validate.rs).
use Prim.Native.String.{String}
use xetcas.Prelude.{
  ℕ, ◌+◌, ◌*◌, ◌^◌, ◌≤◌, ◌<◌, ◌≡◌, ◌≢◌, refl, ◌↔◌, ◌⊎◌, not, ◌&&◌, Bool, true, false, Option, none,
  some, List, [], ◌∷◌, Bytes, ok, err, ok_or, fail_if, inl, inr, ◌>>=◌, ◌>>◌, All, length, last?,
  arith, leb, ◌==◌, ==_iff,
}
use xetcas.Prelude.Words.{add_u64, add_u64_of_lt}
use xetcas.Contracts.Storage.{XorbRecord, FileTermRecord, FileRecord}
use xetcas.Contracts.Validate.Fields.{
  Checked, ValidationError, Failure, invalid, panicked, is_empty, require_hash_hex,
}
use xetcas.Contracts.Validate.Storage.{
  last_offset, validate_xorb_record, validate_file_term_record, sum_segments, validate_file_record,
}
use xetcas.Contracts.Validate.Accepts.{
  Accepts, IsHashHex, accepts-then, accepts-fail_if, accepts-unless, accepts-ltb, accepts-each,
  accepts-IsHashHex, is_hash_hex_iff, ||_iff, is_empty_iff,
}

abbrev pub IsXorbRecord : XorbRecord → Type 0
IsXorbRecord r =
    IsHashHex r.xorb_hash
    × (((1 ≤ r.num_chunks) × (r.num_chunks ≤ 8192))
        × ((r.unpacked_length ≤ 67_108_864)
            × ((length r.chunk_boundary_offsets ≡ r.num_chunks)
                × ((length r.unpacked_chunk_offsets ≡ r.num_chunks)
                    × ((length r.chunk_hashes ≡ 32 * r.num_chunks)
                        × ((last? r.chunk_boundary_offsets ≡ some r.frames_length)
                            × (last? r.unpacked_chunk_offsets ≡ some r.unpacked_length)))))))

abbrev pub IsFileTerm : FileTermRecord → Type 0
IsFileTerm t = IsHashHex t.xorb_hash × (t.chunk_index_start ≤ t.chunk_index_end)

-- The sum of the terms' lengths.
abbrev pub total_segments : List FileTermRecord → ℕ
total_segments [] = 0
total_segments (t ∷ ts) = t.unpacked_segment_bytes + total_segments ts

abbrev pub IsFileRecord : FileRecord → Type 0
IsFileRecord r =
    IsHashHex r.file_hash
    × (((r.sha256 ≡ []) ⊎ IsHashHex r.sha256)
        × (All IsFileTerm r.terms
            × (((r.verification_range_hashes ≡ [])
                  ⊎ (length r.verification_range_hashes ≡ 32 * length r.terms))
                × (total_segments r.terms ≡ r.file_length))))

IsFileTerm-accepts : (t : FileTermRecord) → Accepts (validate_file_term_record t) (IsFileTerm t)
unfolding validate_file_term_record
IsFileTerm-accepts t =
    accepts-then _ _ (accepts-IsHashHex _ _ t.xorb_hash) (accepts-fail_if _ _ (accepts-ltb _ _))

pub sum_segments-total :
    (n : ℕ) (ts : List FileTermRecord)
    → n + total_segments ts < 2 ^ 64
    → sum_segments n ts ≡ n + total_segments ts
unfolding sum_segments
sum_segments-total n [] h = omega arith
sum_segments-total n (t ∷ ts) h =
    let e : add_u64 n t.unpacked_segment_bytes ≡ n + t.unpacked_segment_bytes =
      add_u64_of_lt n t.unpacked_segment_bytes (omega arith) in
    rw e (omega (arith, sum_segments-total (n + t.unpacked_segment_bytes) ts (omega arith)))

accepts-last_then :
    (o : Option ℕ) (n : ℕ) (e : Failure) (k : Checked) {Q : Type 0}
    → Accepts k Q
    → Accepts (ok_or o panicked >>= λ l. fail_if (not (l == n)) e >> k) ((o ≡ some n) × Q)
accepts-last_then none n e k h = (λ x. cc, λ p. cc p.0)
accepts-last_then (some a) n e k h =
    accepts-then (fail_if (not (a == n)) e) k (accepts-unless (a == n) e (ground arith)) h

accepts-last :
    (o : Option ℕ) (n : ℕ) (e : Failure)
    → Accepts (ok_or o panicked >>= λ l. fail_if (not (l == n)) e) (o ≡ some n)
accepts-last none n e = (λ x. cc, λ p. cc)
accepts-last (some a) n e = accepts-unless (a == n) e (ground arith)

-- A xorb record is accepted exactly when its hash is 64 lowercase hex digits, it has 1 to 8192 chunks
-- and at most 64 MiB, one physical and one uncompressed end offset and 32 hash bytes for each chunk,
-- and its two last offsets are its two lengths.
pub xorb_record-accepts : (r : XorbRecord) → (validate_xorb_record r ≡ ok tt) ↔ IsXorbRecord r
unfolding validate_xorb_record last_offset
xorb_record-accepts r = accepts-then _ _ (accepts-IsHashHex _ _ r.xorb_hash) (
    accepts-then _ _ (accepts-unless _ _ (ground arith)) (
      accepts-then _ _ (accepts-fail_if _ _ (accepts-ltb _ _)) (
        accepts-then _ _ (accepts-unless _ _ (==_iff _ _)) (
          accepts-then _ _ (accepts-unless _ _ (==_iff _ _)) (
            accepts-then _ _ (accepts-unless _ _ (==_iff _ _))
              (accepts-last_then _ _ _ _ (accepts-last _ _ _)))))))

fail_if-calm : (b : Bool) (e : ValidationError) → fail_if b (invalid e) ≢ err panicked
unfolding fail_if
fail_if-calm true e = λ x. cc
fail_if-calm false e = λ x. cc

hash_hex-calm : (m f : String) (s : Bytes) → require_hash_hex m f s ≢ err panicked
unfolding require_hash_hex
hash_hex-calm m f s e = ground arith

-- Where a first step does not panic, a panic is the rest's, after the first step accepted.
then-panics :
    (m k : Checked) → m ≢ err panicked → (m >> k) ≡ err panicked → (m ≡ ok tt) × (k ≡ err panicked)
then-panics (ok u) k h e = (refl, e)
then-panics (err x) k h e = absurd (h (ground arith))

last-some : (xs : List ℕ) → 1 ≤ length xs → (a : ℕ) × (last? xs ≡ some a)
last-some [] h = absurd (omega arith)
last-some (x ∷ []) h = (x, refl)
last-some (x ∷ y ∷ xs) h = last-some (y ∷ xs) (omega arith)

last-panics :
    (xs : List ℕ) (f : ℕ → Checked)
    → 1 ≤ length xs
    → (last_offset xs >>= f) ≡ err panicked
    → (a : ℕ) × (f a ≡ err panicked)
unfolding last_offset
last-panics xs f h e = let (a, ea) = last-some xs h in (a, rw ea at e)

one_each :
    (n : ℕ) (xs : List ℕ) (e f : Failure)
    → fail_if (not (leb 1 n && leb n 8192)) e ≡ ok tt
    → fail_if (not (length xs == n)) f ≡ ok tt
    → 1 ≤ length xs
unfolding fail_if
one_each n xs e f h k = ground arith

-- The two `expect`s of the xorb record's validator never panic, whatever the record.
pub xorb_record_never_panics : (r : XorbRecord) → validate_xorb_record r ≢ err panicked
unfolding validate_xorb_record
xorb_record_never_panics r h =
    let (_, h1) = then-panics _ _ (hash_hex-calm _ _ r.xorb_hash) h in
    let (chunks, h2) = then-panics _ _ (fail_if-calm _ _) h1 in
    let (_, h3) = then-panics _ _ (fail_if-calm _ _) h2 in
    let (n, h4) = then-panics _ _ (fail_if-calm _ _) h3 in
    let (m, h5) = then-panics _ _ (fail_if-calm _ _) h4 in
    let (_, h6) = then-panics _ _ (fail_if-calm _ _) h5 in
    let (_, h7) = last-panics _ _ (one_each r.num_chunks _ _ _ chunks n) h6 in
    let (_, h8) = then-panics _ _ (fail_if-calm _ _) h7 in
    let (_, h9) = last-panics _ _ (one_each r.num_chunks _ _ _ chunks m) h8 in fail_if-calm _ _ h9

verification_iff :
    (v : Bytes) (n : ℕ)
    → ((not (is_empty v) && not (length v == n)) ≡ false) ↔ ((v ≡ []) ⊎ (length v ≡ n))
verification_iff [] n = (λ e. inl refl, λ p. refl)
verification_iff (c ∷ v) n =
    (λ e. inr (ground arith), λ p. elim p [ inl e ↦ absurd (cc) | inr e ↦ ground arith ])

-- A file record whose terms sum to less than 2^64 is accepted exactly when its hash is 64 lowercase
-- hex digits, its SHA-256 is empty or such a hash, each term has a hash and an ordered chunk range,
-- its verification hashes are absent or 32 bytes for each term, and its length is the sum of its
-- terms' lengths.
pub file_record-accepts :
    (r : FileRecord)
    → total_segments r.terms < 2 ^ 64
    → (validate_file_record r ≡ ok tt) ↔ IsFileRecord r
unfolding validate_file_record
file_record-accepts r h = accepts-then _ _ (accepts-IsHashHex _ _ r.file_hash) (
    accepts-then _ _
      (accepts-unless _ _ (||_iff _ _ (is_empty_iff r.sha256) (is_hash_hex_iff r.sha256)))
      (accepts-then _ _ (accepts-each _ r.terms IsFileTerm-accepts) (
        accepts-then _ _ (accepts-fail_if _ _ (verification_iff r.verification_range_hashes _))
          (accepts-unless _ _ (rw (sum_segments-total 0 r.terms (omega arith)) (ground arith))))))
