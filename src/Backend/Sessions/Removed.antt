-- ===== src/Backend/Sessions/Removed.antt =====
-- removeSession, and the session manager as a map from users to sockets.
use mathlib.Core.Path.{fun_ext}
use private_communication.Common.{
  ℕ, ◌≡◌, refl, ◌≢◌, inl, inr, String, Bool, false, Option, none, some, str_eq, str_eq_iff, ◌==◌,
  ==_iff, if◌then◌else◌, arith, sym, ap, ◌∙◌, Map, present, present-some, lookup, insert, erase,
  number_key, string_key, Key-cases, lookup-insert_self, lookup-insert_ne, lookup-erase_self,
  lookup-erase_ne, Option-cases, Bool-cases,
}
use private_communication.Backend.Sessions.{
  UserSession, SessionManager, Network, new_session, close_existing, register, add_session,
  remove_user, remove_session, socket_of, get_socket,
}
use private_communication.Backend.Sessions.Consistent.{IsConsistent}

module _ (s : ℕ) (m : SessionManager) (h : IsConsistent m) where
  owner_named : (user : String) → lookup s m.socket_to_user ≡ some user → user ≢ ""
  owner_named user e q = cc ((h.back s user e).1, ap (λ v. lookup v m.sessions) q, h.unnamed)

  -- What removeSession does with the user whom the socket leads to.
  pub remove_session_owned :
      (user : String)
      → lookup s m.socket_to_user ≡ some user
      → remove_session s m ≡ remove_user (some user) s m
  unfolding remove_session
  remove_session_owned user e = rw e (rw (present-some user (owner_named user e)) refl)

  pub remove_session_unowned : lookup s m.socket_to_user ≡ none → remove_session s m ≡ (m, none)
  unfolding remove_session remove_user present
  remove_session_unowned e = rw e refl

  removed-IsConsistent :
      (user : String)
      → lookup s m.socket_to_user ≡ some user
      → IsConsistent (remove_user (some user) s m).0
  unfolding remove_user
  removed-IsConsistent user e =
      let mine = h.back s user e in
      record {
        forward = λ u x k. elim (Key-cases user u) [
          | inl q ↦
              cc
                (k, lookup-erase_self user m.sessions, ap (λ v. lookup v (erase user m.sessions)) q)
          | inr n ↦
              let kept = h.forward u x (sym (lookup-erase_ne user u m.sessions n) ∙ k) in
              (
                kept.0,
                elim (Key-cases s x.socket) [
                  | inl q ↦ absurd (n (cc (e, kept.1, ap (λ t. lookup t m.socket_to_user) q)))
                  | inr p ↦ lookup-erase_ne s x.socket m.socket_to_user p ∙ kept.1
                ],
              )
        ];
        back = λ t u k. elim (Key-cases s t) [
          | inl q ↦ cc (
            k,
            lookup-erase_self s m.socket_to_user,
            ap (λ v. lookup v (erase s m.socket_to_user)) q,
          )
          | inr p ↦
              let found = h.back t u (sym (lookup-erase_ne s t m.socket_to_user p) ∙ k) in
              (
                found.0,
                elim (Key-cases user u) [
                  | inl q ↦
                      absurd
                        (p (cc (mine.1, mine.2, ap (λ v. lookup v m.sessions) q, found.1, found.2)))
                  | inr n ↦ lookup-erase_ne user u m.sessions n ∙ found.1
                ],
                found.2,
              )
        ];
        unnamed = lookup-erase_ne user "" m.sessions (owner_named user e) ∙ h.unnamed;
      }

  -- removeSession keeps the maps in agreement.
  pub remove_session-IsConsistent : IsConsistent (remove_session s m).0
  remove_session-IsConsistent = elim (Option-cases (lookup s m.socket_to_user)) [
    | inl e ↦ rw (remove_session_unowned e) h
    | inr (user, e) ↦ rw (remove_session_owned user e) (removed-IsConsistent user e)
  ]

-- The promise of the session manager: at most one socket for a user.
abbrev pub Registry : Type 0
Registry = String → Option ℕ

abbrev pub view : SessionManager → Registry
view m user = get_socket user m

pub assign : String → ℕ → Registry → Registry
assign user s r u = if str_eq user u then some s else r u

abbrev holds : Option ℕ → ℕ → Bool
holds none s = false
holds (some t) s = t == s

pub release : ℕ → Registry → Registry
release s r u = if holds (r u) s then none else r u

assign_registered :
    (user u : String) (session : UserSession) (m : Map String UserSession)
    → socket_of (lookup u (insert user session m))
      ≡ (if str_eq user u then some session.socket else socket_of (lookup u m))
assign_registered user u session m = elim (Key-cases user u) [
  | inl p ↦
      rw (sym p) (rw (lookup-insert_self user session m) (rw ((str_eq_iff user user).1 refl) refl))
  | inr n ↦ ground (arith, lookup-insert_ne user u session m n, str_eq_iff user u)
]

-- addSession gives the user the socket, and every other user keeps the one that it had.
pub add_session-refines :
    (user : String) (s : ℕ) (key : String) (now : ℕ) (m : SessionManager) (n : Network)
    → view (add_session user s key now (m, n)).0 ≡ assign user s (view m)
unfolding add_session close_existing register new_session get_socket assign
add_session-refines user s key now m n = fun_ext λ u. elim (Option-cases (lookup user m.sessions)) [
  | inl e ↦
      rw (e, close_existing) (assign_registered user u (new_session user s key now) m.sessions)
  | inr (old, e) ↦
      rw (e, close_existing) (assign_registered user u (new_session user s key now) m.sessions)
]

-- removeSession takes the socket from the user who has it, and from no other: the maps being in
-- agreement, that is the one user of whom the socket is.
pub remove_session-refines :
    (s : ℕ) (m : SessionManager) → IsConsistent m → view (remove_session s m).0 ≡ release s (view m)
unfolding remove_user get_socket release
remove_session-refines s m h = fun_ext λ u. elim (Option-cases (lookup s m.socket_to_user)) [
  | inl e ↦ rw (remove_session_unowned s m h e) (elim (Option-cases (lookup u m.sessions)) [
    | inl k ↦ rw k refl
    | inr (x, k) ↦
        let led = (h.forward u x k).1 in
        elim (Bool-cases (x.socket == s)) [
          | inl q ↦ cc (e, led, ap (λ t. lookup t m.socket_to_user) ((==_iff x.socket s).0 q))
          | inr q ↦ rw k (rw q refl)
        ]
  ])
  | inr (user, e) ↦ rw (remove_session_owned s m h user e) (elim (Key-cases user u) [
    | inl q ↦
        let mine = h.back s user e in
        let same = (==_iff mine.0.socket s).1 mine.2 in
        rw (sym q) (rw (lookup-erase_self user m.sessions) (rw mine.1 (rw same refl)))
    | inr n ↦ rw (lookup-erase_ne user u m.sessions n) (elim (Option-cases (lookup u m.sessions)) [
      | inl k ↦ rw k refl
      | inr (x, k) ↦
          let led = (h.forward u x k).1 in
          elim (Bool-cases (x.socket == s)) [
            | inl q ↦
                absurd
                  (n (cc (e, led, ap (λ t. lookup t m.socket_to_user) ((==_iff x.socket s).0 q))))
            | inr q ↦ rw k (rw q refl)
          ]
    ])
  ])
]
