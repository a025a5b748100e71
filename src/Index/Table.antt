-- ===== src/Index/Table.antt =====
-- A table with a primary key, and the SQL statements that crates/xetcasd/src/index.rs runs on it.
use xetcas.Prelude.{
  ◌+◌, ◌≡◌, refl, Bool, true, false, Option, none, some, List, [], ◌∷◌, ◌++◌, Bytes, bytes_eq,
  bytes_eq_iff, lookup, length, length-append, arith, ltb, ◌==◌, if◌then◌else◌,
}

abbrev pub Rows : Type 0 → Type 0
Rows V = List (Bytes × V)

-- Text in the order of its bytes.
unfoldable pub text_before : Bytes → Bytes → Bool
text_before [] [] = false
text_before [] (y ∷ ys) = true
text_before (x ∷ xs) [] = false
text_before (x ∷ xs) (y ∷ ys) =
    if ltb x y then true else if x == y then text_before xs ys else false

module _ {V : Type 0} where
  -- Whether `INSERT OR IGNORE` adds a row.
  unfoldable pub inserted : Bytes → Rows V → Bool
  inserted k m = elim (lookup k m) [ none ↦ true | some v ↦ false ]

  unfoldable pub insert_or_ignore : Bytes → V → Rows V → Rows V
  insert_or_ignore k v m = if inserted k m then m ++ (k, v) ∷ [] else m

  -- `ORDER BY` the key with `LIMIT 1`, of the rows that satisfy the test.
  unfoldable pub least : (V → Bool) → Rows V → Option (Bytes × V)
  least p [] = none
  least p ((k, v) ∷ m) =
      let rest = least p m in
      if p v
      then elim rest [
        | none ↦ some (k, v)
        | some (j, w) ↦ if text_before j k then some (j, w) else some (k, v)
      ]
      else rest

  lookup-snoc :
      (k j : Bytes) (v : V) (m : Rows V)
      → lookup k (m ++ (j, v) ∷ [])
        ≡ elim (lookup k m) [ none ↦ if bytes_eq j k then some v else none | some w ↦ some w ]
  unfolding lookup
  lookup-snoc k j v [] = refl
  lookup-snoc k j v ((i, w) ∷ m) = ground (arith, lookup-snoc k j v m)

  -- The first row of a key stays; a new key gets the new row.
  pub lookup-insert_or_ignore :
      (k j : Bytes) (v : V) (m : Rows V)
      → lookup k (insert_or_ignore j v m)
        ≡ elim (lookup k m) [ none ↦ if bytes_eq j k then some v else none | some w ↦ some w ]
  unfolding insert_or_ignore inserted
  lookup-insert_or_ignore k j v m = ground (arith, lookup-snoc k j v m, bytes_eq_iff j k)

  pub length-insert_or_ignore :
      (j : Bytes) (v : V) (m : Rows V)
      → length (insert_or_ignore j v m) ≡ (if inserted j m then 1 else 0) + length m
  unfolding insert_or_ignore
  length-insert_or_ignore j v m = ground (arith, length-append m ((j, v) ∷ []))

  -- A second insertion under the key changes nothing.
  pub insert_or_ignore-again :
      (k j : Bytes) (v : V) (m : Rows V)
      → bytes_eq j k ≡ true
      → inserted k (insert_or_ignore j v m) ≡ false
  unfolding inserted
  insert_or_ignore-again k j v m h = ground (arith, lookup-insert_or_ignore k j v m)
