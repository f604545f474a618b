-- ===== src/Attr/Serialize/Fields.antt =====
-- For each field of PathAttributes: what its writer appends, and that a round of
-- PathAttributes::parse enters it again.
use pathforge.Base.{
  ℕ, ◌*◌, ◌<◌, ◌≡◌, refl, sym, List, [], ◌∷◌, ◌++◌, Option, none, some, Bool, true, false, Outcome,
  ok, arith, length, All, bytes16, bytes32,
}
use mathlib.Core.List.{append-nil}
use pathforge.Bytes.{listed}
use pathforge.Attr.{
  Origin, igp, egp, incomplete, origin_code, try_from, AttrError, AsPathSegment, PathAttributes,
  flag_optional, flag_transitive,
}
use pathforge.Attr.Parse.{set_attribute, read_u32, read_aggregator, first_byte}
use pathforge.Attr.Serialize.{
  put_origin, put_as_path, put_optional_u32, put_atomic_aggregate, put_aggregator, put_list,
  optional_transitive,
}
use pathforge.Attr.Serialize.Encode.{
  Writes, u32_bytes, length-u32_bytes, put_u32s-Writes, read_u32s_bytes, segments_bytes,
  FitsSegment, put_segments-Writes, read_segments_bytes,
}
use pathforge.Attr.Serialize.Chunk.{chunk, write_attr-Writes, Parses, Parses-chunk}

abbrev pub origin_bytes : Option Origin → List ℕ
origin_bytes none = []
origin_bytes (some x) = chunk flag_transitive 1 (origin_code x ∷ [])

abbrev pub as_path_bytes : List AsPathSegment → List ℕ
as_path_bytes [] = []
as_path_bytes (s ∷ ss) = chunk flag_transitive 2 (segments_bytes (s ∷ ss))

abbrev pub u32_attribute : ℕ → ℕ → Option ℕ → List ℕ
u32_attribute flags type_code none = []
u32_attribute flags type_code (some n) = chunk flags type_code (bytes32 n)

abbrev pub atomic_bytes : Bool → List ℕ
atomic_bytes false = []
atomic_bytes true = chunk flag_transitive 6 []

abbrev pub aggregator_bytes : Option (ℕ × ℕ) → List ℕ
aggregator_bytes none = []
aggregator_bytes (some (asn, ip)) = chunk optional_transitive 7 (bytes16 asn ++ bytes32 ip)

abbrev pub list_attribute : ℕ → ℕ → List ℕ → List ℕ
list_attribute flags type_code [] = []
list_attribute flags type_code (n ∷ ns) = chunk flags type_code (u32_bytes (n ∷ ns))

pub origin-Writes : (x : Option Origin) → Writes (λ buf. put_origin listed buf x) (origin_bytes x)
unfolding put_origin
origin-Writes none buf = sym (append-nil buf)
origin-Writes (some x) buf =
    write_attr-Writes flag_transitive 1 (origin_code x ∷ []) (omega arith) buf

pub as_path-Writes :
    (ss : List AsPathSegment)
    → length (segments_bytes ss) < 65536
    → Writes (λ buf. put_as_path listed buf ss) (as_path_bytes ss)
unfolding put_as_path
as_path-Writes [] h buf = sym (append-nil buf)
as_path-Writes (s ∷ ss) h buf =
    rw (put_segments-Writes (s ∷ ss) [])
      (write_attr-Writes flag_transitive 2 (segments_bytes (s ∷ ss)) h buf)

pub u32-Writes :
    (flags type_code : ℕ) (x : Option ℕ)
    → Writes
        (λ buf. put_optional_u32 listed flags type_code buf x)
        (u32_attribute flags type_code x)
unfolding put_optional_u32
u32-Writes flags type_code none buf = sym (append-nil buf)
u32-Writes flags type_code (some n) buf =
    write_attr-Writes flags type_code (bytes32 n) (omega arith) buf

pub atomic-Writes : (x : Bool) → Writes (λ buf. put_atomic_aggregate listed buf x) (atomic_bytes x)
unfolding put_atomic_aggregate
atomic-Writes false buf = sym (append-nil buf)
atomic-Writes true buf = write_attr-Writes flag_transitive 6 [] (omega arith) buf

pub aggregator-Writes :
    (x : Option (ℕ × ℕ)) → Writes (λ buf. put_aggregator listed buf x) (aggregator_bytes x)
unfolding put_aggregator
aggregator-Writes none buf = sym (append-nil buf)
aggregator-Writes (some (asn, ip)) buf =
    write_attr-Writes optional_transitive 7 (bytes16 asn ++ bytes32 ip) (omega arith) buf

pub list-Writes :
    (flags type_code : ℕ) (ns : List ℕ)
    → length ns * 4 < 65536
    → Writes (λ buf. put_list listed flags type_code buf ns) (list_attribute flags type_code ns)
unfolding put_list
list-Writes flags type_code [] h buf = sym (append-nil buf)
list-Writes flags type_code (n ∷ ns) h buf = rw (put_u32s-Writes (n ∷ ns) []) (
    write_attr-Writes flags type_code (u32_bytes (n ∷ ns))
      (omega (arith, length-u32_bytes (n ∷ ns))) buf)

try_from-origin_code : (x : Origin) → try_from (origin_code x) ≡ ok x
unfolding try_from
try_from-origin_code igp = refl
try_from-origin_code egp = refl
try_from-origin_code incomplete = refl

read_u32_bytes : (n : ℕ) → read_u32 listed (bytes32 n) ≡ ok n
unfolding read_u32
read_u32_bytes n = ground arith

read_aggregator_bytes :
    (asn ip : ℕ) → read_aggregator listed (bytes16 asn ++ bytes32 ip) ≡ ok (asn, ip)
unfolding read_aggregator
read_aggregator_bytes asn ip = ground arith

module _ (a : PathAttributes) (rest : List ℕ) (r : Outcome AttrError PathAttributes) where
  pub origin-Parses :
      (x : Option Origin)
      → Parses (record a { origin = x }) rest r
      → Parses (record a { origin = none }) (origin_bytes x ++ rest) r
  unfolding set_attribute first_byte
  origin-Parses none h = h
  origin-Parses (some x) h =
      Parses-chunk _ (record a { origin = some x }) flag_transitive 1 (origin_code x ∷ []) rest r
        (omega arith) (λ _. refl) (omega arith) (rw (try_from-origin_code x)) h

  pub as_path-Parses :
      (ss : List AsPathSegment)
      → All FitsSegment ss
      → length (segments_bytes ss) < 65536
      → Parses (record a { as_path = ss }) rest r
      → Parses (record a { as_path = [] }) (as_path_bytes ss ++ rest) r
  unfolding set_attribute
  as_path-Parses [] f l h = h
  as_path-Parses (s ∷ ss) f l h =
      let bytes : List ℕ = segments_bytes (s ∷ ss) in
      Parses-chunk _ (record a { as_path = s ∷ ss }) flag_transitive 2 bytes rest r (omega arith)
        (λ _. refl) l (rw (read_segments_bytes (length bytes) (s ∷ ss) f (omega arith))) h

  pub next_hop-Parses :
      (x : Option ℕ)
      → Parses (record a { next_hop = x }) rest r
      → Parses (record a { next_hop = none }) (u32_attribute flag_transitive 3 x ++ rest) r
  unfolding set_attribute
  next_hop-Parses none h = h
  next_hop-Parses (some n) h =
      Parses-chunk _ (record a { next_hop = some n }) flag_transitive 3 (bytes32 n) rest r
        (omega arith) (λ _. refl) (omega arith) (rw (read_u32_bytes n)) h

  pub multi_exit_disc-Parses :
      (x : Option ℕ)
      → Parses (record a { multi_exit_disc = x }) rest r
      → Parses (record a { multi_exit_disc = none }) (u32_attribute flag_optional 4 x ++ rest) r
  unfolding set_attribute
  multi_exit_disc-Parses none h = h
  multi_exit_disc-Parses (some n) h =
      Parses-chunk _ (record a { multi_exit_disc = some n }) flag_optional 4 (bytes32 n) rest r
        (omega arith) (λ _. refl) (omega arith) (rw (read_u32_bytes n)) h

  pub local_pref-Parses :
      (x : Option ℕ)
      → Parses (record a { local_pref = x }) rest r
      → Parses (record a { local_pref = none }) (u32_attribute flag_transitive 5 x ++ rest) r
  unfolding set_attribute
  local_pref-Parses none h = h
  local_pref-Parses (some n) h =
      Parses-chunk _ (record a { local_pref = some n }) flag_transitive 5 (bytes32 n) rest r
        (omega arith) (λ _. refl) (omega arith) (rw (read_u32_bytes n)) h

  pub atomic-Parses :
      (x : Bool)
      → Parses (record a { atomic_aggregate = x }) rest r
      → Parses (record a { atomic_aggregate = false }) (atomic_bytes x ++ rest) r
  unfolding set_attribute
  atomic-Parses false h = h
  atomic-Parses true h =
      Parses-chunk _ (record a { atomic_aggregate = true }) flag_transitive 6 [] rest r
        (omega arith) (λ _. refl) (omega arith) refl h

  pub aggregator-Parses :
      (x : Option (ℕ × ℕ))
      → Parses (record a { aggregator = x }) rest r
      → Parses (record a { aggregator = none }) (aggregator_bytes x ++ rest) r
  unfolding set_attribute
  aggregator-Parses none h = h
  aggregator-Parses (some (asn, ip)) h =
      Parses-chunk _ (record a { aggregator = some (asn, ip) }) optional_transitive 7
        (bytes16 asn ++ bytes32 ip) rest r (omega arith) (λ _. refl) (omega arith)
        (rw (read_aggregator_bytes asn ip)) h

  pub communities-Parses :
      (ns : List ℕ)
      → length ns * 4 < 65536
      → Parses (record a { communities = ns }) rest r
      → Parses (record a { communities = [] }) (list_attribute optional_transitive 8 ns ++ rest) r
  unfolding set_attribute
  communities-Parses [] l h = h
  communities-Parses (n ∷ ns) l h =
      let bytes : List ℕ = u32_bytes (n ∷ ns) in
      Parses-chunk _ (record a { communities = n ∷ ns }) optional_transitive 8 bytes rest r
        (omega arith) (λ _. refl) (omega (arith, length-u32_bytes (n ∷ ns)))
        (rw (read_u32s_bytes (length bytes) (n ∷ ns) (omega arith))) h

  pub originator_id-Parses :
      (x : Option ℕ)
      → Parses (record a { originator_id = x }) rest r
      → Parses (record a { originator_id = none }) (u32_attribute flag_optional 9 x ++ rest) r
  unfolding set_attribute
  originator_id-Parses none h = h
  originator_id-Parses (some n) h =
      Parses-chunk _ (record a { originator_id = some n }) flag_optional 9 (bytes32 n) rest r
        (omega arith) (λ _. refl) (omega arith) (rw (read_u32_bytes n)) h

  pub cluster_list-Parses :
      (ns : List ℕ)
      → length ns * 4 < 65536
      → Parses (record a { cluster_list = ns }) rest r
      → Parses (record a { cluster_list = [] }) (list_attribute flag_optional 10 ns ++ rest) r
  unfolding set_attribute
  cluster_list-Parses [] l h = h
  cluster_list-Parses (n ∷ ns) l h =
      let bytes : List ℕ = u32_bytes (n ∷ ns) in
      Parses-chunk _ (record a { cluster_list = n ∷ ns }) flag_optional 10 bytes rest r
        (omega arith) (λ _. refl) (omega (arith, length-u32_bytes (n ∷ ns)))
        (rw (read_u32s_bytes (length bytes) (n ∷ ns) (omega arith))) h
