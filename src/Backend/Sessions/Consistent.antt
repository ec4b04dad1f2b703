-- ===== src/Backend/Sessions/Consistent.antt =====
-- The two maps of the session manager agree, and with them the manager is a map from users to sockets.
use private_communication.Common.{
  ℕ, ◌≡◌, refl, ◌≢◌, ◌⊎◌, inl, inr, String, none, some, arith, sym, ap, ◌∙◌, lookup, erase,
  number_key, string_key, Key-cases, lookup-insert_self, lookup-insert_ne, lookup-erase_self,
  lookup-erase_ne, Option-cases,
}
use private_communication.Backend.Sessions.{
  UserSession, SessionManager, Network, empty_manager, new_session, close_existing, register,
  add_session, get_user_id,
}

-- Each session is of the user under whom it is kept, and its socket leads back to that user; each
-- socket that leads to a user is the one of the user's session. No user has an empty name.
pub record IsConsistent (m : SessionManager) : Type 0 where
  pub forward :
      (user : String) (x : UserSession)
      → lookup user m.sessions ≡ some x
      → (x.user_id ≡ user) × (lookup x.socket m.socket_to_user ≡ some user)
  pub back :
      (s : ℕ) (user : String)
      → lookup s m.socket_to_user ≡ some user
      → (x : UserSession) × (lookup user m.sessions ≡ some x) × (x.socket ≡ s)
  pub unnamed : lookup "" m.sessions ≡ none

pub empty_manager-IsConsistent : IsConsistent empty_manager
unfolding empty_manager lookup
empty_manager-IsConsistent = record {
  forward = λ user x e. cc;
  back = λ s user e. cc;
  unnamed = refl;
}

-- A socket that no other user than `user` has.
abbrev pub IsFree : ℕ → String → SessionManager → Type 0
IsFree s user m = (get_user_id s m ≡ none) ⊎ (get_user_id s m ≡ some user)

module _ (user : String) (s : ℕ) (key : String) (now : ℕ) (m : SessionManager) where
  abbrev added : SessionManager
  added = register user s key now m

  -- What `register` needs of the maps, once the earlier session of the user is out of them.
  record IsCleared : Type 0 where
    forward :
        (u : String) (x : UserSession)
        → u ≢ user
        → lookup u m.sessions ≡ some x
        → (x.user_id ≡ u) × (lookup x.socket m.socket_to_user ≡ some u)
    back :
        (t : ℕ) (u : String)
        → t ≢ s
        → lookup t m.socket_to_user ≡ some u
        → (u ≢ user) × ((x : UserSession) × (lookup u m.sessions ≡ some x) × (x.socket ≡ t))
    free : (u : String) → u ≢ user → lookup s m.socket_to_user ≢ some u
    unnamed : lookup "" m.sessions ≡ none

  register-forward :
      IsCleared
      → (u : String) (x : UserSession) → lookup u added.sessions ≡ some x
      → (x.user_id ≡ u) × (lookup x.socket added.socket_to_user ≡ some u)
  unfolding register new_session
  register-forward c u x e = elim (Key-cases user u) [
    | inl p ↦ ground (
      arith,
      lookup-insert_self user (new_session user s key now) m.sessions,
      lookup-insert_self s user m.socket_to_user,
    )
    | inr n ↦ elim (Key-cases s x.socket) [
      | inl q ↦ ground (
        arith,
        lookup-insert_ne user u (new_session user s key now) m.sessions n,
        c.forward u x,
        c.free u,
      )
      | inr k ↦ ground (
        arith,
        lookup-insert_ne user u (new_session user s key now) m.sessions n,
        c.forward u x,
        lookup-insert_ne s x.socket user m.socket_to_user k,
      )
    ]
  ]

  register-back :
      IsCleared
      → (t : ℕ) (u : String) → lookup t added.socket_to_user ≡ some u
      → (x : UserSession) × (lookup u added.sessions ≡ some x) × (x.socket ≡ t)
  unfolding register new_session
  register-back c t u e = elim (Key-cases s t) [
    | inl p ↦
        let same = lookup-insert_self s user m.socket_to_user in
        (
          new_session user s key now,
          ground (arith, same, lookup-insert_self user (new_session user s key now) m.sessions),
          p,
        )
    | inr n ↦
        let before : lookup t m.socket_to_user ≡ some u =
          ground (arith, lookup-insert_ne s t user m.socket_to_user n) in
        let h = c.back t u (λ q. n (sym q)) before in
        (
          h.1.0,
          ground (
            arith,
            lookup-insert_ne user u (new_session user s key now) m.sessions (λ q. h.0 (sym q)),
            h.1.1,
          ),
          h.1.2,
        )
  ]

  register-IsConsistent : user ≢ "" → IsCleared → IsConsistent added
  unfolding register new_session
  register-IsConsistent named c = record {
    forward = register-forward c;
    back = register-back c;
    unnamed =
        ground (
          arith,
          lookup-insert_ne user "" (new_session user s key now) m.sessions named,
          c.unnamed,
        );
  }

module _ (user : String) (s : ℕ) (m : SessionManager) (h : IsConsistent m) where
  -- With no earlier session of the user, the maps are cleared as they are.
  fresh-IsCleared :
      (key : String) (now : ℕ)
      → IsFree s user m
      → lookup user m.sessions ≡ none
      → IsCleared user s key now m
  unfolding get_user_id
  fresh-IsCleared key now free e = record {
    forward = λ u x n k. h.forward u x k;
    back = λ t u n k.
        let found = h.back t u k in
        ((λ (q : u ≡ user). cc (e, ap (λ v. lookup v m.sessions) q, found.1)), found);
    free = λ u n k. elim free [ inl none_of ↦ cc (none_of, k) | inr own ↦ n (cc (own, k)) ];
    unnamed = h.unnamed;
  }

  -- The socket of the earlier session is taken out first.
  replaced-IsCleared :
      (key : String) (now : ℕ) (old : UserSession)
      → IsFree s user m
      → lookup user m.sessions ≡ some old
      → IsCleared user s key now (record m { socket_to_user = erase old.socket m.socket_to_user })
  unfolding get_user_id
  replaced-IsCleared key now old free e =
      let was = (h.forward user old e).1 in
      record {
        forward = λ u x n k.
            let kept = h.forward u x k in
            (
              kept.0,
              elim (Key-cases old.socket x.socket) [
                | inl q ↦ absurd (n (cc (kept.1, was, ap (λ t. lookup t m.socket_to_user) q)))
                | inr p ↦ lookup-erase_ne old.socket x.socket m.socket_to_user p ∙ kept.1
              ],
            );
        back = λ t u n k. elim (Key-cases old.socket t) [
          | inl q ↦ absurd (
              cc (
                k,
                lookup-erase_self old.socket m.socket_to_user,
                ap (λ v. lookup v (erase old.socket m.socket_to_user)) q,
              ))
          | inr p ↦
              let before = sym (lookup-erase_ne old.socket t m.socket_to_user p) ∙ k in
              let found = h.back t u before in
              (
                (λ (q : u ≡ user). p (cc (e, ap (λ v. lookup v m.sessions) q, found.1, found.2))),
                found,
              )
        ];
        free = λ u n k. elim (Key-cases old.socket s) [
          | inl q ↦ cc (
            k,
            lookup-erase_self old.socket m.socket_to_user,
            ap (λ v. lookup v (erase old.socket m.socket_to_user)) q,
          )
          | inr p ↦
              let before = sym (lookup-erase_ne old.socket s m.socket_to_user p) ∙ k in
              elim free [ inl none_of ↦ cc (none_of, before) | inr own ↦ n (cc (own, before)) ]
        ];
        unnamed = h.unnamed;
      }

-- addSession keeps the maps in agreement, for a user with a name and a socket that no other user has.
pub add_session-IsConsistent :
    (user : String) (s : ℕ) (key : String) (now : ℕ) (m : SessionManager) (n : Network)
    → user ≢ ""
    → IsFree s user m
    → IsConsistent m
    → IsConsistent (add_session user s key now (m, n)).0
unfolding add_session close_existing
add_session-IsConsistent user s key now m n named free h =
    elim (Option-cases (lookup user m.sessions)) [
      | inl e ↦
          rw (e, close_existing)
            (register-IsConsistent user s key now m named
              (fresh-IsCleared user s m h key now free e))
      | inr (old, e) ↦
          rw (e, close_existing)
            (register-IsConsistent user s key now
              (record m { socket_to_user = erase old.socket m.socket_to_user }) named
              (replaced-IsCleared user s m h key now old free e))
    ]
