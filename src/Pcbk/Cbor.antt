-- ===== src/Pcbk/Cbor.antt =====
-- Canonical CBOR: packages/pcbk-core/src/cbor.ts. The codec itself is the package cbor-x, a
-- parameter. Objects keep the order of their entries; the one exception of JavaScript, keys that are
-- array indices, is left out (no object of the format has such a key).
pub mod Reading
use private_communication.Common.{
  ℕ, String, Bool, true, false, List, [], ◌∷◌, length, ltb, ◌==◌, utf8, if◌then◌else◌, ℤ, pos, ◌≡◌,
  ◌≢◌, sub_ℕ, is_negative, Result, ok, err,
}
use private_communication.Pcbk.Value.{
  Value, undefined, null, bool, num, str, bytes, view, arr, obj, bare, other, Items, nil, cons,
  Fields, end, field,
}

-- The loop of compareUtf8Keys, over two byte strings.
abbrev compare_bytes : List ℕ → List ℕ → ℤ
compare_bytes [] right = pos 0
compare_bytes (x ∷ left) [] = pos x
compare_bytes (x ∷ left) (y ∷ right) = if x == y then compare_bytes left right else sub_ℕ x y

-- compareUtf8Keys: shorter keys first, then by bytes.
pub compare_utf8_keys : String → String → ℤ
compare_utf8_keys left right =
    if length (utf8 left) == length (utf8 right)
    then compare_bytes (utf8 left) (utf8 right)
    else sub_ℕ (length (utf8 left)) (length (utf8 right))

-- A stable sort by compareUtf8Keys, as an insertion sort: an entry goes in front of the first entry
-- that is not below it.
pub insert : String → Value → Fields → Fields
insert k v end = field k v end
insert k v (field j w fs) =
    if is_negative (compare_utf8_keys j k)
    then field j w (insert k v fs)
    else field k v (field j w fs)

pub sort : Fields → Fields
unfolding insert
sort end = end
sort (field k v fs) = insert k v (sort fs)

-- canonicalizeForCbor. The values are mapped before the entries are sorted, which looks at keys only.
unfoldable mutual
  unfolding sort

  pub canonicalize : Value → Value
  canonicalize (view b) = bytes b
  canonicalize (arr vs) = arr (canonicalize_items vs)
  canonicalize (obj fs) = obj (sort (canonicalize_entries fs))
  canonicalize undefined = undefined
  canonicalize null = null
  canonicalize (bool b) = bool b
  canonicalize (num n) = num n
  canonicalize (str s) = str s
  canonicalize (bytes b) = bytes b
  canonicalize (bare fs) = bare fs
  canonicalize (other n) = other n

  pub canonicalize_items : Items → Items
  canonicalize_items nil = nil
  canonicalize_items (cons v vs) = cons (canonicalize v) (canonicalize_items vs)

  -- The entries whose value is not `undefined`.
  pub canonicalize_entries : Fields → Fields
  canonicalize_entries end = end
  canonicalize_entries (field k undefined fs) = canonicalize_entries fs
  canonicalize_entries (field k v fs) = field k (canonicalize v) (canonicalize_entries fs)

-- cbor-x: `encode` and `decode`. Decoding may throw.
pub record Codec : Type 0 where
  pub encode : Value → Value
  pub decode : List ℕ → Result String Value

-- toEncodedBytes
abbrev pub to_encoded_bytes : Value → Result String (List ℕ)
to_encoded_bytes (bytes b) = ok b
to_encoded_bytes (view b) = ok b
to_encoded_bytes _ = err "CBOR encoder must return bytes"

unfoldable pub encode_canonical_cbor : Codec → Value → Result String (List ℕ)
encode_canonical_cbor c v = to_encoded_bytes (c.encode (canonicalize v))

unfoldable pub decode_cbor : Codec → List ℕ → Result String Value
decode_cbor c b = c.decode b

-- What the sources rely on: a value that was encoded decodes to itself, and no encoding is empty.
abbrev pub RoundTrips : Codec → Value → Type 0
RoundTrips c v =
    (b : List ℕ) → to_encoded_bytes (c.encode v) ≡ ok b → (b ≢ []) × (c.decode b ≡ ok v)
