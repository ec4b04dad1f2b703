-- ===== src/Restore/Payloads/Again.antt =====
-- The checks accept what they made of a value, written as a value again.
use private_communication.Common.{ℕ, ◌≡◌, refl, String, Bool, Option, some, arith}
use private_communication.Pcbk.Value.{
  nat, neg, real, Value, undefined, null, bool, num, str, obj, Fields, end, checks, is_string,
  is_non_negative_safe_integer, is_positive_safe_integer,
}
use private_communication.Restore.Payloads.{
  is_boolean, is_nullable_kind, is_nullable_string, is_optional_non_negative_safe_integer,
  is_optional_string, natural, nullable_text, optional_natural, optional_text,
}

abbrev pub fields_of : Value → Fields
fields_of (obj fs) = fs
fields_of _ = end

pub is_string_again : (v : Value) {a : String} → is_string v ≡ some a → is_string (str a) ≡ some a
unfolding checks
is_string_again (str s) e = refl
is_string_again _ e = cc

pub is_optional_string_again :
    (v : Value) {a : Option String}
    → is_optional_string v ≡ some a
    → is_optional_string (optional_text a) ≡ some a
unfolding checks is_optional_string
is_optional_string_again undefined e = ground arith
is_optional_string_again (str s) e = ground arith
is_optional_string_again _ e = cc

pub is_non_negative_safe_integer_again :
    (v : Value) {a : ℕ}
    → is_non_negative_safe_integer v ≡ some a
    → is_non_negative_safe_integer (natural a) ≡ some a
unfolding checks
is_non_negative_safe_integer_again (num (nat n)) e = ground arith
is_non_negative_safe_integer_again (num (neg n)) e = cc
is_non_negative_safe_integer_again (num (real n)) e = cc
is_non_negative_safe_integer_again _ e = cc

pub is_optional_non_negative_safe_integer_again :
    (v : Value) {a : Option ℕ}
    → is_optional_non_negative_safe_integer v ≡ some a
    → is_optional_non_negative_safe_integer (optional_natural a) ≡ some a
unfolding checks is_optional_non_negative_safe_integer
is_optional_non_negative_safe_integer_again undefined e = ground arith
is_optional_non_negative_safe_integer_again (num (nat n)) e = ground arith
is_optional_non_negative_safe_integer_again (num (neg n)) e = cc
is_optional_non_negative_safe_integer_again (num (real n)) e = cc
is_optional_non_negative_safe_integer_again _ e = cc

pub is_positive_safe_integer_again :
    (v : Value) {a : ℕ}
    → is_positive_safe_integer v ≡ some a
    → is_positive_safe_integer (natural a) ≡ some a
unfolding checks
is_positive_safe_integer_again (num (nat n)) e = ground arith
is_positive_safe_integer_again (num (neg n)) e = cc
is_positive_safe_integer_again (num (real n)) e = cc
is_positive_safe_integer_again _ e = cc

pub is_nullable_string_again :
    (v : Value) {a : Option String}
    → is_nullable_string v ≡ some a
    → is_nullable_string (nullable_text a) ≡ some a
unfolding checks is_nullable_string
is_nullable_string_again null e = ground arith
is_nullable_string_again (str s) e = ground arith
is_nullable_string_again _ e = cc

pub is_nullable_kind_again :
    (v : Value) {a : Option String}
    → is_nullable_kind v ≡ some a
    → is_nullable_kind (nullable_text a) ≡ some a
unfolding checks is_nullable_kind
is_nullable_kind_again null e = ground arith
is_nullable_kind_again (str s) e = ground arith
is_nullable_kind_again _ e = cc

pub is_boolean_again : (v : Value) {a : Bool} → is_boolean v ≡ some a → is_boolean (bool a) ≡ some a
unfolding checks is_boolean
is_boolean_again (bool b) e = refl
is_boolean_again _ e = cc
