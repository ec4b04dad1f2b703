-- ===== src/Backend/Auth/Registered.antt =====
-- What an answer that is refused leaves behind.
use private_communication.Common.{◌≡◌, ◌≢◌, ◌⊎◌, String, none, some, present}
use private_communication.Backend.Redis.{Client, get_public_key, get_signing_public_key}
use private_communication.Backend.World.{Server, World, AuthResponse}

module _ (v : Server) (d : AuthResponse) (w : World v.client.State) where
  -- A user who lacks one of the keys.
  abbrev pub IsUnknown : Type 0
  IsUnknown =
      (present (get_public_key v.client v.settings d.user_id w.redis) ≡ none)
      ⊎ (present (get_signing_public_key v.client v.settings d.user_id w.redis) ≡ none)

-- SET writes one key.
pub record IsSetting (c : Client) : Type 0 where
  pub written : (key value : String) (r : c.State) → c.get key (c.set key value r) ≡ some value
  pub others :
      (key other value : String) (r : c.State)
      → key ≢ other
      → c.get other (c.set key value r) ≡ c.get other r
