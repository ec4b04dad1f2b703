-- ===== src/Restore/Payloads.antt =====
-- The validators of payloads: frontend/src/services/backup/restore/validators.ts, those of peer keys,
-- link previews, attachments and remote media. The names of the fields are the keys in the sources.
pub mod Again
pub mod Contacts
pub mod Files
pub mod Media
use private_communication.Common.{
  ℕ, String, Bool, true, false, ◌||◌, Option, none, some, List, str_eq, if◌then◌else◌, Result, ok,
  err, ◌>>=◌, expect,
}
use private_communication.Pcbk.Value.{
  nat, Value, undefined, null, bool, num, str, obj, Fields, end, field, is_cbor_record, is_string,
  is_non_negative_safe_integer, is_positive_safe_integer,
}
use private_communication.Restore.Objects.{MetaFormat}

-- isBoolean
unfoldable pub is_boolean : Value → Option Bool
is_boolean (bool b) = some b
is_boolean _ = none

abbrev optional {ℓ} : {A : Type ℓ} → Option A → Option (Option A)
optional none = none
optional (some a) = some (some a)

-- isOptionalString
unfoldable pub is_optional_string : Value → Option (Option String)
is_optional_string undefined = some none
is_optional_string v = optional (is_string v)

-- isOptionalNonNegativeSafeInteger
unfoldable pub is_optional_non_negative_safe_integer : Value → Option (Option ℕ)
is_optional_non_negative_safe_integer undefined = some none
is_optional_non_negative_safe_integer v = optional (is_non_negative_safe_integer v)

-- `value === null || isString(value)`
unfoldable pub is_nullable_string : Value → Option (Option String)
is_nullable_string null = some none
is_nullable_string v = optional (is_string v)

-- ATTACHMENT_KINDS.has
abbrev pub is_kind_name : String → Bool
is_kind_name s =
    str_eq s "audio"
    || str_eq s "image"
    || str_eq s "video"
    || str_eq s "document"
    || str_eq s "other"

-- isAttachmentKind
unfoldable pub is_attachment_kind : Value → Option String
is_attachment_kind (str s) = if is_kind_name s then some s else none
is_attachment_kind _ = none

-- `value === null || isAttachmentKind(value)`
unfoldable pub is_nullable_kind : Value → Option (Option String)
unfolding is_attachment_kind
is_nullable_kind null = some none
is_nullable_kind v = optional (is_attachment_kind v)

-- A payload as the value that it is encoded from.
abbrev pub natural : ℕ → Value
natural n = num (nat n)

abbrev pub optional_text : Option String → Value
optional_text none = undefined
optional_text (some s) = str s

abbrev pub optional_natural : Option ℕ → Value
optional_natural none = undefined
optional_natural (some n) = natural n

abbrev pub nullable_text : Option String → Value
nullable_text none = null
nullable_text (some s) = str s
