-- ===== src/Pcbk/Cbor/Reading.antt =====
-- Canonicalising changes the order of an object's entries, and not what its properties read as.
use mathlib.Core.Path.{fun_ext}
use private_communication.Common.{
  ℕ, String, true, false, some, ◌≡◌, refl, ap, subst, ◌∙◌, List, [], ◌∷◌, utf8, str_eq, str_eq_iff,
  if◌then◌else◌, pos, is_negative, arith, Bool-cases, inl, inr,
}
use private_communication.Pcbk.Value.{
  Number, Value, undefined, num, str, bytes, obj, Fields, end, field, get, is_cbor_record, absent,
  distinct,
}
use private_communication.Pcbk.Cbor.{
  compare_bytes, compare_utf8_keys, insert, sort, canonicalize, canonicalize_entries,
}

compare_bytes_self : (b : List ℕ) → compare_bytes b b ≡ pos 0
compare_bytes_self [] = refl
compare_bytes_self (x ∷ b) = ground (arith, compare_bytes_self b)

compare_utf8_keys_self : (k : String) → compare_utf8_keys k k ≡ pos 0
unfolding compare_utf8_keys
compare_utf8_keys_self k = ground (arith, compare_bytes_self (utf8 k))

-- A key that sorts below another is not that key.
below-ne : (j k : String) → is_negative (compare_utf8_keys j k) ≡ true → str_eq j k ≡ false
below-ne j k h = elim (Bool-cases (str_eq j k)) [
  | inl e ↦ ground (
    arith,
    str_eq_iff j k,
    compare_utf8_keys_self k,
    ap (λ i. compare_utf8_keys i k) ((str_eq_iff j k).0 e),
  )
  | inr e ↦ e
]

pub get-insert :
    (key k : String) (v : Value) (fs : Fields)
    → get key (insert k v fs) ≡ (if str_eq k key then v else get key fs)
unfolding get insert
get-insert key k v end = refl
get-insert key k v (field j w fs) =
    ground (
      arith,
      get-insert key k v fs,
      below-ne j k,
      str_eq_iff j key,
      str_eq_iff k key,
      str_eq_iff j k,
    )

get-sort : (key : String) (fs : Fields) → get key (sort fs) ≡ get key fs
unfolding get sort
get-sort key end = refl
get-sort key (field k v fs) = ground (arith, get-insert key k v (sort fs), get-sort key fs)

absent-get :
    (key : String) (fs : Fields)
    → absent key fs ≡ true
    → get key (canonicalize_entries fs) ≡ undefined
unfolding get canonicalize
absent-get key end h = refl
absent-get key (field k undefined fs) h = absent-get key fs (ground arith)
absent-get key (field k v fs) h = ground (arith, absent-get key fs)

get-entries :
    (key : String) (fs : Fields)
    → distinct fs ≡ true
    → get key (canonicalize_entries fs) ≡ canonicalize (get key fs)
unfolding get canonicalize
get-entries key end h = refl
get-entries key (field k undefined fs) h = elim (Bool-cases (str_eq k key)) [
  | inl e ↦
      rw e (
        absent-get key fs (subst (λ i. absent i fs ≡ true) ((str_eq_iff k key).0 e) (ground arith)))
  | inr e ↦ rw e (get-entries key fs (ground arith))
]
get-entries key (field k v fs) h = ground (arith, get-entries key fs)

-- For an object whose keys are distinct: after canonicalising, every property reads as the canonical
-- form of what it read as before, a missing one as undefined.
pub get-canonicalize :
    (fs : Fields)
    → distinct fs ≡ true
    → ◌≡◌ {A = String → Value}
        (λ key. get key (sort (canonicalize_entries fs)))
        (λ key. canonicalize (get key fs))
get-canonicalize fs h =
    fun_ext (λ key. get-sort key (canonicalize_entries fs) ∙ get-entries key fs h)

pub canonical-record :
    (fs : Fields)
    → distinct fs ≡ true
    → is_cbor_record (canonicalize (obj fs)) ≡ some (λ key. canonicalize (get key fs))
unfolding canonicalize
canonical-record fs h = ap some (get-canonicalize fs h)

pub canonicalize-num : (n : Number) → canonicalize (num n) ≡ num n
unfolding canonicalize
canonicalize-num n = refl

pub canonicalize-str : (s : String) → canonicalize (str s) ≡ str s
unfolding canonicalize
canonicalize-str s = refl

pub canonicalize-bytes : (b : List ℕ) → canonicalize (bytes b) ≡ bytes b
unfolding canonicalize
canonicalize-bytes b = refl

pub ruleset leaves = (canonicalize-num, canonicalize-str, canonicalize-bytes)
