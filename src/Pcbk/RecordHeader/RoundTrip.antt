-- ===== src/Pcbk/RecordHeader/RoundTrip.antt =====
-- A header that is written reads back as it was given.
use private_communication.Common.{
  ℕ, ◌<◌, ◌≡◌, ◌≢◌, ◌↔◌, ◌∙◌, sym, ap, refl, not, true, false, Option, none, some, String, ok,
  arith, List, [], ◌∷◌, str_eq, if◌then◌else◌, Bool, String,
}
use private_communication.Pcbk.Value.{
  Value, Number, nat, obj, distinct, get, num, str, undefined, neg, real, is_non_empty_string,
  is_undefined, is_string, checks, is_nat, is_non_negative_safe_integer, is_positive_safe_integer,
}
use private_communication.Pcbk.Cbor.{
  Codec, RoundTrips, canonicalize, encode_canonical_cbor, decode_cbor,
}
use private_communication.Pcbk.Cbor.Reading.{get-canonicalize}
use mathlib.Core.Option
use private_communication.Pcbk.RecordHeader.Accepted.{IsAccepted, validate_record_header-IsAccepted}
use private_communication.Pcbk.RecordHeader.{
  same, optional_check, chunk_in_order, check_scalars, check_object_id, check_chunk, is_some,
  RecordType, identity, Encoding, cbor, type_name, encoding_name, is_record_type,
  is_record_encoding, RecordHeader, BuildInput, is_object_id_type, is_chunk_type, validate_fields,
  validate_record_header, decode_record_header, build_record_header, header_fields,
}

header_fields-distinct : (input : BuildInput) → distinct (header_fields input) ≡ true
header_fields-distinct input = ground arith

abbrev pub is_named : Option String → Bool
is_named none = false
is_named (some s) = not (str_eq s "")

abbrev text_value : Option String → Value
text_value none = undefined
text_value (some s) = if str_eq s "" then undefined else str s

abbrev number_value : Option Number → Value
number_value none = undefined
number_value (some n) = num n

-- What the reader needs beyond what the writer checks: a name where the type or the place of a chunk
-- asks for one, and a place where the type asks for it.
pub record IsComplete (input : BuildInput) : Type 0 where
  pub named : is_object_id_type input.type ≡ true → is_named input.object_id ≡ true
  pub placed : is_chunk_type input.type ≡ true → input.chunk_index ≢ none
  pub place_named : input.chunk_index ≢ none → is_named input.object_id ≡ true

-- The header that the input stands for.
abbrev pub natural : Number → ℕ
natural (nat n) = n
natural _ = 0

abbrev pub named : Option String → Option String
named (some s) = if str_eq s "" then none else some s
named none = none

abbrev pub header_of : BuildInput → RecordHeader
header_of input = record {
  type = input.type;
  index = natural input.index;
  encoding = input.encoding;
  plain_length = natural input.plain_length;
  cipher_length = natural input.cipher_length;
  object_id = named input.object_id;
  chunk_index = Option.map natural input.chunk_index;
  chunk_count = Option.map natural input.chunk_count;
}

is_record_type_name : (t : RecordType) → is_record_type (str (type_name t)) ≡ some t
unfolding is_record_type
is_record_type_name identity = refl
is_record_type_name _ = refl

is_record_encoding_name : (t : Encoding) → is_record_encoding (str (encoding_name t)) ≡ some t
unfolding is_record_encoding
is_record_encoding_name cbor = refl
is_record_encoding_name _ = refl

abbrev reading : BuildInput → String → Value
reading input key = canonicalize (get key (header_fields input))

reads-place :
    (input : BuildInput)
    → (reading input "objectId" ≡ text_value input.object_id)
      × (reading input "chunkIndex" ≡ number_value input.chunk_index)
      × (reading input "chunkCount" ≡ number_value input.chunk_count)
unfolding canonicalize get
reads-place input = ground arith

-- The two numbers of a chunk's place, as the writer checks them.
abbrev IsPlaceChecked : Option Number → Option Number → Type 0
IsPlaceChecked none none = Unit {0}
IsPlaceChecked (some i) (some n) =
    (is_non_negative_safe_integer (num i) ≡ some (natural i))
    × (is_positive_safe_integer (num n) ≡ some (natural n))
    × (natural i < natural n)
IsPlaceChecked _ _ = ⊥

-- What the writer has checked when it encodes.
record IsChecked (input : BuildInput) : Type 0 where
  version : input.version ≡ nat 1
  index : is_non_negative_safe_integer (num input.index) ≡ some (natural input.index)
  plain : is_non_negative_safe_integer (num input.plain_length) ≡ some (natural input.plain_length)
  cipher :
      is_non_negative_safe_integer (num input.cipher_length) ≡ some (natural input.cipher_length)
  placed : IsPlaceChecked input.chunk_index input.chunk_count

non_negative :
    (n : Number)
    → is_some (is_non_negative_safe_integer (num n)) ≡ true
    → is_non_negative_safe_integer (num n) ≡ some (natural n)
unfolding checks
non_negative (nat n) h = ground arith
non_negative _ h = cc

one : (n : Number) → is_nat 1 (num n) ≡ true → n ≡ nat 1
unfolding checks
one (nat n) h = ground arith
one _ h = cc

place-checked :
    (i n : Option Number)
    → same (is_some i) (is_some n) ≡ true
    → optional_check is_non_negative_safe_integer i ≡ true
    → optional_check is_positive_safe_integer n ≡ true
    → chunk_in_order i n ≡ true
    → IsPlaceChecked i n
unfolding checks
place-checked none none a b c d = tt
place-checked none (some n) a b c d = cc
place-checked (some i) none a b c d = cc
place-checked (some (nat i)) (some (nat n)) a b c d = (ground arith, ground arith, ground arith)
place-checked (some (neg i)) (some n) a b c d = cc
place-checked (some (real i)) (some n) a b c d = cc
place-checked (some (nat i)) (some (neg n)) a b c d = cc
place-checked (some (nat i)) (some (real n)) a b c d = cc

build-IsChecked :
    (codec : Codec) (input : BuildInput) (b : List ℕ)
    → build_record_header codec input ≡ ok b
    → IsChecked input × (encode_canonical_cbor codec (obj (header_fields input)) ≡ ok b)
unfolding build_record_header
build-IsChecked codec input b e = (
  record {
    version = ground (arith, one input.version);
    index = ground (arith, non_negative input.index);
    plain = ground (arith, non_negative input.plain_length);
    cipher = ground (arith, non_negative input.cipher_length);
    placed =
        place-checked input.chunk_index input.chunk_count (ground arith) (ground arith)
          (ground arith) (ground arith);
  },
  ground arith,
)

module _ (input : BuildInput) (checked : IsChecked input) (complete : IsComplete input) where
  scalars-read :
      check_scalars (reading input)
      ≡ ok (record {
        type = input.type;
        index = natural input.index;
        encoding = input.encoding;
        plain_length = natural input.plain_length;
        cipher_length = natural input.cipher_length;
      })
  unfolding check_scalars canonicalize get is_nat
  scalars-read = rw (
    checked.version, is_record_type_name, is_record_encoding_name, checked.index, checked.plain,
    checked.cipher,
  )

  object_id-read : check_object_id input.type (text_value input.object_id) ≡ ok tt
  unfolding check_object_id checks
  object_id-read = ground (arith, complete.named)

  chunk-read :
      check_chunk input.type
        (text_value input.object_id)
        (number_value input.chunk_index)
        (number_value input.chunk_count)
      ≡ ok (Option.map natural input.chunk_index, Option.map natural input.chunk_count)
  unfolding check_chunk is_undefined is_non_empty_string
  chunk-read = ground (arith, checked.placed, complete.placed, complete.place_named)

  text-read : is_string (text_value input.object_id) ≡ named input.object_id
  unfolding is_string
  text-read = ground arith

  fields-read : validate_fields (reading input) ≡ ok (header_of input)
  unfolding validate_fields canonicalize get
  fields-read =
      let (name, index, count) = reads-place input in
      rw (name, index, count, scalars-read, object_id-read, chunk-read, text-read)

-- Canonicalising does not change how the validator sees the object.
validate-canonical :
    (input : BuildInput)
    → validate_record_header (canonicalize (obj (header_fields input)))
      ≡ validate_fields (reading input)
unfolding validate_record_header canonicalize get
validate-canonical input =
    ap validate_fields (get-canonicalize (header_fields input) (header_fields-distinct input))

decode-built :
    (codec : Codec) (input : BuildInput) (b : List ℕ)
    → RoundTrips codec (canonicalize (obj (header_fields input)))
    → build_record_header codec input ≡ ok b
    → decode_record_header codec b
      ≡ validate_record_header (canonicalize (obj (header_fields input)))
unfolding decode_record_header encode_canonical_cbor decode_cbor
decode-built codec input [] law e = absurd ((law [] (build-IsChecked codec input [] e).1).0 refl)
decode-built codec input (x ∷ b) law e =
    rw ((law (x ∷ b) (build-IsChecked codec input (x ∷ b) e).1).1)

IsComplete-accepted : (input : BuildInput) → IsAccepted (header_of input) → IsComplete input
IsComplete-accepted input a = record {
  named = λ h. ground (arith, a.named h);
  placed = λ h. ground (arith, a.chunked h);
  place_named = λ h. ground (arith, a.placed, h);
}

-- For a codec that decodes what it encoded for this header, and an input that the writer of record
-- headers encodes: decoding gives back the header that the input stands for exactly when the input has
-- the name and the chunk's place that the reader asks for. The writer does not check these.
pub decode_record_header-build_iff :
    (codec : Codec) (input : BuildInput) (b : List ℕ)
    → RoundTrips codec (canonicalize (obj (header_fields input)))
    → build_record_header codec input ≡ ok b
    → (decode_record_header codec b ≡ ok (header_of input)) ↔ IsComplete input
decode_record_header-build_iff codec input b law e =
    let read = decode-built codec input b law e in
    (
      λ h. IsComplete-accepted input (validate_record_header-IsAccepted _ _ (sym read ∙ h)),
      λ complete.
          read
          ∙ validate-canonical input
          ∙ fields-read input (build-IsChecked codec input b e).0 complete,
    )
