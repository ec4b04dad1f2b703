-- ===== src/Pcbk/Value.antt =====
-- What the CBOR decoder may return (`unknown` in the sources), and the checks of
-- packages/pcbk-core/src/validation.ts. A check that narrows a type returns what it narrows to.
use private_communication.Common.{
  ℕ, ◌-◌, ◌^◌, String, Bool, true, false, not, ◌&&◌, Option, none, some, List, [], ◌∷◌, ltb, leb,
  ◌==◌, str_eq, if◌then◌else◌,
}

-- A JavaScript number: an integer n, an integer -(n + 1), or any other double (a fraction, a NaN,
-- an infinity), by its bits.
pub data Number : Type 0 where
  nat : ℕ → Number
  neg : ℕ → Number
  real : ℕ → Number

-- `bytes` is a Uint8Array, `view` an ArrayBuffer or any other view of one, `obj` an object whose
-- prototype is Object.prototype, `bare` one that has no prototype, `other` any other object.
mutual
  pub data Value : Type 0 where
    undefined null : Value
    bool : Bool → Value
    num : Number → Value
    str : String → Value
    bytes : List ℕ → Value
    view : List ℕ → Value
    arr : Items → Value
    obj : Fields → Value
    bare : Fields → Value
    other : ℕ → Value

  pub data Items : Type 0 where
    cons : Value → Items → Items
    nil : Items

  pub data Fields : Type 0 where
    end : Fields
    field : String → Value → Fields → Fields

abbrev pub to_list : Items → List Value
to_list nil = []
to_list (cons v vs) = v ∷ to_list vs

-- `record[key]`: a key that is missing reads as `undefined`.
unfoldable pub get : String → Fields → Value
get key end = undefined
get key (field k v fs) = if str_eq k key then v else get key fs

-- The keys of an object are distinct.
abbrev pub absent : String → Fields → Bool
absent key end = true
absent key (field k v fs) = not (str_eq k key) && absent key fs

abbrev pub distinct : Fields → Bool
distinct end = true
distinct (field k v fs) = absent k fs && distinct fs

-- `Number.MAX_SAFE_INTEGER`
abbrev pub max_safe_integer : ℕ
max_safe_integer = 2 ^ 53 - 1

-- isCborRecord. A `Record<string, unknown>` is what its properties read as.
abbrev pub is_cbor_record : Value → Option (String → Value)
is_cbor_record (obj fs) = some (λ key. get key fs)
is_cbor_record (bare fs) = some (λ key. get key fs)
is_cbor_record _ = none

abbrev pub safe_nat : Number → Option ℕ
safe_nat (nat n) = if leb n max_safe_integer then some n else none
safe_nat _ = none

abbrev pub positive : Option ℕ → Option ℕ
positive (some n) = if ltb 0 n then some n else none
positive none = none

-- isNonNegativeSafeInteger
unfoldable pub is_non_negative_safe_integer : Value → Option ℕ
is_non_negative_safe_integer (num n) = safe_nat n
is_non_negative_safe_integer _ = none

-- isPositiveSafeInteger
unfoldable pub is_positive_safe_integer : Value → Option ℕ
unfolding is_non_negative_safe_integer
is_positive_safe_integer v = positive (is_non_negative_safe_integer v)

-- `typeof value === 'string'`
unfoldable pub is_string : Value → Option String
is_string (str s) = some s
is_string _ = none

-- `typeof value === 'string' && value.length > 0`
unfoldable pub is_non_empty_string : Value → Option String
is_non_empty_string (str s) = if str_eq s "" then none else some s
is_non_empty_string _ = none

-- `value instanceof Uint8Array`
unfoldable pub is_bytes : Value → Option (List ℕ)
is_bytes (bytes b) = some b
is_bytes _ = none

-- `Array.isArray(value)`
unfoldable pub is_array : Value → Option (List Value)
is_array (arr vs) = some (to_list vs)
is_array _ = none

-- `value === undefined`
unfoldable pub is_undefined : Value → Bool
is_undefined undefined = true
is_undefined _ = false

-- `value === n` and `value === s`
unfoldable pub is_nat : ℕ → Value → Bool
is_nat n (num (nat m)) = m == n
is_nat n _ = false

unfoldable pub is_text : String → Value → Bool
is_text s (str t) = str_eq t s
is_text s _ = false

-- `value === true`
unfoldable pub is_true : Value → Bool
is_true (bool b) = b
is_true _ = false

-- One name that opens the checks above.
unfoldable pub checks : Unit {0}
unfolding is_positive_safe_integer is_string is_non_empty_string is_bytes is_array is_nat is_text
    is_true is_undefined
checks = tt
