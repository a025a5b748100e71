-- ===== src/Shards/Mappings.antt =====
-- The dedup mappings of an upload (crates/xetcasd/src/routes/shards.rs): which entries get into the
-- index.
use xetcas.Prelude.{
  ◌≡◌, refl, sym, ◌⊎◌, inl, inr, Bool-cases, Option-cases, some, List, [], ◌∷◌, bytes_eq,
  bytes_eq→eq, bytes_eq_iff, lookup, Result, ok, err, All, subst, arith,
}
use xetcas.Contracts.Storage.{XorbRecord}
use xetcas.Index.{ChunkEntry}
use xetcas.Shards.Chunks.{IsChunkHash, chunk_hash_at-IsChunkHash}
use xetcas.Shards.{Hashing, Xorbs, chunk_hash_at, validated_chunk_mappings}

-- The stored xorb has the chunk at the index.
pub record Corroborated (h : Hashing) (xorbs : Xorbs) (c : ChunkEntry) : Type 0 where
  pub stored : XorbRecord
  pub found : lookup c.xorb_hash xorbs ≡ some stored
  pub hash : h.MerkleHash
  pub reads : chunk_hash_at h stored c.chunk_index ≡ ok hash
  pub at_index : IsChunkHash h stored c.chunk_index hash
  pub named : h.hex hash ≡ c.chunk_hash

pub Result-cases {ℓ κ} :
    {E : Type ℓ} {A : Type κ} (m : Result E A) → ((e : E) × (m ≡ err e)) ⊎ ((a : A) × (m ≡ ok a))
Result-cases (err e) = inl (e, refl)
Result-cases (ok a) = inr (a, refl)

module _ (h : Hashing) (xorbs : Xorbs) where
  -- An entry is kept where it is corroborated, and dropped where it is not.
  keeps :
      (c : ChunkEntry) (cs : List ChunkEntry)
      → Corroborated h xorbs c
      → validated_chunk_mappings h (c ∷ cs) xorbs ≡ c ∷ validated_chunk_mappings h cs xorbs
  unfolding validated_chunk_mappings
  keeps c cs k = ground (arith, k.found, k.reads, k.named, bytes_eq_iff (h.hex k.hash) c.chunk_hash)

  drops_or_keeps :
      (c : ChunkEntry) (cs : List ChunkEntry)
      → Corroborated h xorbs c
        ⊎ (validated_chunk_mappings h (c ∷ cs) xorbs ≡ validated_chunk_mappings h cs xorbs)
  unfolding validated_chunk_mappings
  drops_or_keeps c cs = elim (Option-cases (lookup c.xorb_hash xorbs)) [
    | inl e ↦ inr (ground (arith, e))
    | inr (r, e) ↦ elim (Result-cases (chunk_hash_at h r c.chunk_index)) [
      | inl (x, f) ↦ inr (ground (arith, e, f))
      | inr (a, f) ↦ elim (Bool-cases (bytes_eq (h.hex a) c.chunk_hash)) [
        | inl g ↦ inl (record {
          stored = r;
          found = e;
          hash = a;
          reads = f;
          at_index = chunk_hash_at-IsChunkHash h r c.chunk_index a f;
          named = bytes_eq→eq (h.hex a) c.chunk_hash g;
        })
        | inr g ↦ inr (ground (arith, e, f, g))
      ]
    ]
  ]

  -- Only corroborated entries are kept.
  pub All-Corroborated :
      (cs : List ChunkEntry) → All (Corroborated h xorbs) (validated_chunk_mappings h cs xorbs)
  unfolding validated_chunk_mappings
  All-Corroborated [] = tt
  All-Corroborated (c ∷ cs) = elim (drops_or_keeps c cs) [
    | inl k ↦ subst (All (Corroborated h xorbs)) (sym (keeps c cs k)) (k, All-Corroborated cs)
    | inr e ↦ subst (All (Corroborated h xorbs)) (sym e) (All-Corroborated cs)
  ]
