-- ===== src/Backend/Sessions/Stale.antt =====
-- A socket that answers its challenge a second time, as another user.
use private_communication.Common.{
  ℕ, ◌≡◌, ◌≢◌, String, some, List, [], ◌∷◌, lookup, number_key, string_key,
}
use private_communication.Backend.Sessions.{SessionManager, remove_session, get_socket}

-- A user who is kept with a socket, while no socket leads back to the user.
pub record IsStale (user : String) (s : ℕ) (m : SessionManager) : Type 0 where
  pub kept : get_socket user m ≡ some s
  pub unknown : (t : ℕ) → lookup t m.socket_to_user ≢ some user

-- removeSession for one socket after another.
abbrev pub remove_all : List ℕ → SessionManager → SessionManager
remove_all [] m = m
remove_all (t ∷ ts) m = remove_all ts (remove_session t m).0
