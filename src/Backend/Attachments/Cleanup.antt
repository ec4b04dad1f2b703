-- ===== src/Backend/Attachments/Cleanup.antt =====
-- The removal of attachments that have expired, in backend/src/services/attachments.ts.
use Prim.Native.Char.{code}
use private_communication.Common.{
  ℕ, String, Bool, Option, none, some, List, [], ◌∷◌, take, ◌==◌, if◌then◌else◌,
}
use private_communication.Backend.Attachments.Store.{
  Depot, State, is_uuid_v4, remove_attachment_artifacts, remove_artifacts_if_lease_missing,
}

-- `text.startsWith(prefix)`, and the rest of the text.
unfoldable pub strip_prefix : String → String → Option String
strip_prefix String.[] s = some s
strip_prefix (String.◌∷◌ c p) String.[] = none
strip_prefix (String.◌∷◌ c p) (String.◌∷◌ d s) =
    let rest = strip_prefix p s in if code c == code d then rest else none

abbrev pub uuid_only : String → Option String
uuid_only id = if is_uuid_v4 id then some id else none

abbrev pub id_of_lease : Option String → Option String
id_of_lease none = none
id_of_lease (some id) = uuid_only id

abbrev pub id_of_manifest : Option String → String → Option String
id_of_manifest (some id) key = uuid_only id
id_of_manifest none key = id_of_lease (strip_prefix "attachments:cleanup:" key)

unfoldable pub get_attachment_id_from_expired_redis_key : String → Option String
get_attachment_id_from_expired_redis_key key =
    id_of_manifest (strip_prefix "attachments:manifest:" key) key

-- The names of directories that are UUIDs.
unfoldable pub attachment_directories : List (String × Bool) → List String
attachment_directories [] = []
attachment_directories ((name, is_directory) ∷ entries) =
    let rest = attachment_directories entries in
    if is_directory then (if is_uuid_v4 name then name ∷ rest else rest) else rest

module _ (v : Depot) where
  abbrev pub remove_expired : Option String → State v → State v
  remove_expired none w = w
  remove_expired (some id) w = remove_attachment_artifacts v id w

  -- The handler of an expired key.
  unfoldable pub attachment_key_expired : String → State v → State v
  attachment_key_expired key w = remove_expired (get_attachment_id_from_expired_redis_key key) w

  unfoldable pub sweep_each : List String → State v → State v
  sweep_each [] w = w
  sweep_each (id ∷ ids) w = sweep_each ids (remove_artifacts_if_lease_missing v id w)

  -- The entries are what readdir gives of the storage directory, `none` where it fails.
  unfoldable pub sweep_attachment_orphans :
      (batch_size : ℕ) → Option (List (String × Bool)) → State v → State v
  sweep_attachment_orphans batch_size none w = w
  sweep_attachment_orphans batch_size (some entries) w =
      sweep_each (take batch_size (attachment_directories entries)) w
