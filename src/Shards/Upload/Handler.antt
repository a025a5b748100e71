-- ===== src/Shards/Upload/Handler.antt =====
-- The handler `upload` of crates/xetcasd/src/routes/shards.rs is made of the steps of its theorems.
use xetcas.Prelude.{
  ℕ, ◌≡◌, refl, ap, subst, Option, List, [], ◌++◌, Bytes, ok, err, fail_if, map_err, bind-ok,
  ok-inj, arith,
}
use xetcas.Contracts.Storage.{FileRecord}
use xetcas.Contracts.Validate.Fields.{is_empty}
use xetcas.Errors.{AppError, bad_request, internal}
use xetcas.Filestream.{Decoding}
use xetcas.Headers.{Header}
use xetcas.Index.{Codec, ChunkEntry, get_xorbs, put_files}
use xetcas.Shards.{Hashing, build_records}
use xetcas.State.{Config, authorize}
use xetcas.Xorbs.{Store}
use xetcas.Shards.Upload.{
  Reply, Reason, MinimalShard, empty_body, index_failed, invalid_shard, lift, decode_shard,
  file_xorbs, chunk_xorbs, verify_sha256, accept, upload,
}
use xetcas.Shards.Upload.Verified.{World, Reachable, check, register, with_index}

module _ (codec : Codec) (decoding : Decoding) (h : Hashing)
    (from_reader : Bytes → Option (MinimalShard h.MerkleHash)) (config : Config) (now : ℕ)
    (authorization : Header) (body : Bytes) where
  accept-verified :
      (s : Store) (built : List FileRecord × List ChunkEntry)
      → accept codec decoding s h from_reader config now authorization body ≡ ok built
      → verify_sha256 codec decoding s built.0 ≡ ok tt
  unfolding accept
  accept-verified s built e =
      let (_, _, e1) = bind-ok (authorize config authorization) _ built e in
      let (_, _, e2) = bind-ok (fail_if (is_empty body) (bad_request empty_body)) _ built e1 in
      let (shard, _, e3) = bind-ok (decode_shard h from_reader body) _ built e2 in
      let (xorbs, _, e4) =
        bind-ok
          (map_err (λ f. internal (index_failed f))
            (get_xorbs codec (file_xorbs shard.files ++ chunk_xorbs shard.flagged_chunks) s.index))
          _ built e3 in
      let (made, _, e5) =
        bind-ok (map_err (lift invalid_shard) (build_records h shard xorbs now)) _ built e4 in
      let (u, p, e6) = bind-ok (verify_sha256 codec decoding s made.0) _ built e5 in
      subst (λ b. verify_sha256 codec decoding s b.0 ≡ ok tt) (ok-inj (ok made) refl e6) p

  upload-refused :
      (s : Store) (e : AppError Reason)
      → accept codec decoding s h from_reader config now authorization body ≡ err e
      → s.index ≡ (upload codec decoding h from_reader config now authorization body s).1
  unfolding upload
  upload-refused s e p = ground arith

  upload-accepted :
      (s : Store) (files : List FileRecord) (chunks : List ChunkEntry)
      → accept codec decoding s h from_reader config now authorization body ≡ ok (files, chunks)
      → (put_files codec files chunks s.index).1
        ≡ (upload codec decoding h from_reader config now authorization body s).1
  unfolding upload
  upload-accepted s files chunks p = ground arith

  -- A whole upload of a shard, accepted or refused, leads from a reachable world to one with the index that
  -- the handler leaves, and the objects as they were.
  pub upload-Reachable :
      (w : World)
      → Reachable codec decoding w
      → (w' : World) × Reachable codec decoding w'
        × (w'.store
            ≡ with_index
                (upload codec decoding h from_reader config now authorization body w.store).1
                w.store)
  upload-Reachable w r = go _ refl
    where
      go :
          (m : Reply (List FileRecord × List ChunkEntry))
          → accept codec decoding w.store h from_reader config now authorization body ≡ m
          → (w' : World) × Reachable codec decoding w'
            × (w'.store
                ≡ with_index
                    (upload codec decoding h from_reader config now authorization body w.store).1
                    w.store)
      go (err e) p = (w, r, ap (λ t. with_index t w.store) (upload-refused w.store e p))
      go (ok (files, chunks)) p =
          let checked = check files (accept-verified w.store (files, chunks) p) r in
          (
            _,
            register [] w.checked files chunks refl checked,
            ap (λ t. with_index t w.store) (upload-accepted w.store files chunks p),
          )
