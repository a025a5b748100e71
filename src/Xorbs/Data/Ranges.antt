-- ===== src/Xorbs/Data/Ranges.antt =====
-- The data route of crates/xetcasd/src/routes/xorbs.rs on the ranges that the reconstruction route hands out.
use xetcas.Prelude.{
  ℕ, ◌-◌, ◌^◌, ◌≤◌, ◌<◌, ◌≡◌, refl, ◌∙◌, some, ◌∷◌, ◌++◌, Bytes, codes, arith, ok, lookup, take,
  drop,
}
use xetcas.Prelude.Words.{sub_u64_of_le, saturating_suc}
use xetcas.Contracts.Storage.{XorbRecord}
use xetcas.Decimal.{to_string}
use xetcas.Decimal.Print.{to_string-cons, to_string-IsDigit, value-to_string}
use xetcas.Headers.{value}
use xetcas.HttpRange.{from_to, parse_range_header, resolve}
use xetcas.HttpRange.RoundTrip.{parse_range_header-digits}
use xetcas.Index.{Codec, get_xorb}
use xetcas.Xorbs.{Store}
use xetcas.Xorbs.Data.{requested, served, content_range, get_data}

-- What a client sends for a byte range on the wire.
abbrev pub range_header : ℕ → ℕ → Bytes
range_header start end = codes "bytes=" ++ (to_string start ++ (b'-' ∷ to_string end))

-- The printed header is read as the range.
pub parse_range_header-range_header :
    (start end : ℕ)
    → start < 2 ^ 64
    → end < 2 ^ 64
    → parse_range_header (range_header start end) ≡ some (from_to start end)
parse_range_header-range_header start end h k =
    let (c, s, p) = to_string-cons start in
    let (d, t, q) = to_string-cons end in
    let v = value-to_string start h in
    let w = value-to_string end k in
    let digits = to_string-IsDigit start in
    let digits' = to_string-IsDigit end in
    rw (p, q)
      ((parse_range_header-digits c d s t (rw p at digits) (rw q at digits')
          (omega (arith, rw p at v)) (omega (arith, rw q at w))).0
        ∙ rw (rw p at v, rw q at w) refl)

resolve-from_to :
    (start end total : ℕ)
    → start < end
    → end ≤ total
    → total < 2 ^ 64
    → resolve (from_to start (end - 1)) total ≡ some (start, end)
unfolding resolve saturating_suc
resolve-from_to start end total h k b = ground arith

requested-range_header :
    (start end total : ℕ)
    → start < end
    → end ≤ total
    → total < 2 ^ 64
    → requested (value (range_header start (end - 1))) total ≡ ok (start, end, 206)
unfolding requested
requested-range_header start end total h k b =
    let p = parse_range_header-range_header start (end - 1) (omega arith) (omega arith) in
    let q = resolve-from_to start end total h k b in ground arith

get_data-part :
    (codec : Codec) (hash stored : Bytes) (s : Store) (r : XorbRecord) (start end : ℕ)
    → get_xorb codec hash s.index ≡ ok (some r)
    → lookup hash s.objects ≡ some stored
    → requested (value (range_header start (end - 1))) r.frames_length ≡ ok (start, end, 206)
    → get_data codec hash (value (range_header start (end - 1))) s
      ≡ ok (served r.frames_length (start, end, 206) stored)
unfolding get_data
get_data-part codec hash stored s r start end found object range = rw (found, range, object) refl

-- For a hash that the index knows and whose object is on disk, the header "bytes=S-E" that a client prints for
-- a byte range inside the frames (E is its last byte) is answered with status 206, with exactly these
-- bytes of the object, and with their number and their place in the frames as headers.
pub get_data-range_header :
    (codec : Codec) (hash stored : Bytes) (s : Store) (r : XorbRecord) (start end : ℕ)
    → get_xorb codec hash s.index ≡ ok (some r)
    → lookup hash s.objects ≡ some stored
    → start < end
    → end ≤ r.frames_length
    → r.frames_length < 2 ^ 64
    → get_data codec hash (value (range_header start (end - 1))) s
      ≡ ok (record {
        status = 206;
        content_length = end - start;
        content_range = some (content_range start end r.frames_length);
        body = take (end - start) (drop start stored);
      })
unfolding served
get_data-range_header codec hash stored s r start end found object h k b =
    get_data-part codec hash stored s r start end found object
      (requested-range_header start end r.frames_length h k b)
    ∙ rw (sub_u64_of_le end start (omega arith) (omega arith)) refl
