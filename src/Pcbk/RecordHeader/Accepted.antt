-- ===== src/Pcbk/RecordHeader/Accepted.antt =====
-- What the validator of record headers lets through.
use private_communication.Common.{
  ℕ, ◌≤◌, ◌<◌, ◌≡◌, ◌≢◌, refl, true, Option, none, some, String, ok, arith, >>=-eq-ok, expect-eq-ok,
  ok-injective, subst, str_eq_iff,
}
use private_communication.Pcbk.Value.{
  Value, max_safe_integer, num, nat, neg, real, str, is_non_negative_safe_integer,
  is_positive_safe_integer, is_non_empty_string, is_string, is_undefined, undefined, checks,
  is_cbor_record,
}
use private_communication.Pcbk.RecordHeader.{
  RecordHeader, is_object_id_type, is_chunk_type, RecordType, Scalars, check_scalars,
  check_object_id, validate_record_header, check_chunk, is_some,
}

-- A chunk's place: both numbers or none, in range, and only in a named object.
abbrev pub IsPlaced : Option String → Option ℕ → Option ℕ → Type 0
IsPlaced o none none = Unit {0}
IsPlaced o (some i) (some n) = (i < n) × (n ≤ max_safe_integer) × (o ≢ none)
IsPlaced o _ _ = ⊥

pub record IsAccepted (h : RecordHeader) : Type 0 where
  pub index_safe : h.index ≤ max_safe_integer
  pub plain_safe : h.plain_length ≤ max_safe_integer
  pub cipher_safe : h.cipher_length ≤ max_safe_integer
  pub named : is_object_id_type h.type ≡ true → h.object_id ≢ none
  pub name_ne : h.object_id ≢ some ""
  pub chunked : is_chunk_type h.type ≡ true → h.chunk_index ≢ none
  pub placed : IsPlaced h.object_id h.chunk_index h.chunk_count

abbrev IsSafe : Option ℕ → Type 0
IsSafe none = Unit {0}
IsSafe (some n) = n ≤ max_safe_integer

non_negative-IsSafe : (v : Value) → IsSafe (is_non_negative_safe_integer v)
unfolding checks
non_negative-IsSafe (num (nat m)) = ground arith
non_negative-IsSafe (num (neg m)) = tt
non_negative-IsSafe (num (real m)) = tt
non_negative-IsSafe _ = tt

positive-IsSafe : (v : Value) → IsSafe (is_positive_safe_integer v)
unfolding checks
positive-IsSafe (num (nat m)) = ground arith
positive-IsSafe (num (neg m)) = tt
positive-IsSafe (num (real m)) = tt
positive-IsSafe _ = tt

text-ne :
    (v : Value)
    → is_some (is_non_empty_string v) ≡ true
    → (is_string v ≢ none) × (is_string v ≢ some "")
unfolding checks
text-ne (str s) h = (λ e. cc, λ e. ground (arith, str_eq_iff s ""))
text-ne _ h = cc

undefined-text : (v : Value) → is_undefined v ≡ true → is_string v ≡ none
unfolding checks
undefined-text undefined h = refl
undefined-text _ h = cc

check_scalars-safe :
    (value : String → Value) {s : Scalars}
    → check_scalars value ≡ ok s
    → (s.index ≤ max_safe_integer)
      × (s.plain_length ≤ max_safe_integer)
      × (s.cipher_length ≤ max_safe_integer)
unfolding check_scalars
check_scalars-safe value e = ground (
  arith,
  non_negative-IsSafe (value "index"),
  non_negative-IsSafe (value "plainLength"),
  non_negative-IsSafe (value "cipherLength"),
)

check_object_id-named :
    (type : RecordType) (o : Value)
    → check_object_id type o ≡ ok tt
    → (is_object_id_type type ≡ true → is_string o ≢ none) × (is_string o ≢ some "")
unfolding check_object_id
check_object_id-named type o e = ground (arith, text-ne o, undefined-text o)

check_chunk-IsPlaced :
    (type : RecordType) (o i n : Value) {c : Option ℕ × Option ℕ}
    → check_chunk type o i n ≡ ok c
    → (is_chunk_type type ≡ true → c.0 ≢ none) × IsPlaced (is_string o) c.0 c.1
unfolding check_chunk
check_chunk-IsPlaced type o i n e = ground (arith, positive-IsSafe n, text-ne o)

-- Every record header that the validator accepts, of any decoded value, has safe integers, a name where
-- its type asks for one and never an empty one, and a chunk's place where its type asks for one: an
-- index below its count, both given or neither, and only with a name.
pub validate_record_header-IsAccepted :
    (v : Value) (h : RecordHeader) → validate_record_header v ≡ ok h → IsAccepted h
unfolding validate_record_header
validate_record_header-IsAccepted v h e =
    let (value, _, e1) = expect-eq-ok (is_cbor_record v) _ _ e in
    let (s, hs, e2) = >>=-eq-ok (check_scalars value) _ e1 in
    let (_, ho, e3) = >>=-eq-ok (check_object_id s.type (value "objectId")) _ e2 in
    let (c, hc, e4) =
      >>=-eq-ok (check_chunk s.type (value "objectId") (value "chunkIndex") (value "chunkCount")) _
        e3 in
    let a = check_scalars-safe value hs in
    let b = check_object_id-named s.type (value "objectId") ho in
    let d =
      check_chunk-IsPlaced s.type (value "objectId") (value "chunkIndex") (value "chunkCount") hc in
    subst IsAccepted (ok-injective e4) (record {
      index_safe = a.0;
      plain_safe = a.1;
      cipher_safe = a.2;
      named = b.0;
      name_ne = b.1;
      chunked = d.0;
      placed = d.1;
    })
