-- ===== src/Tests/Servers/Sessions.antt =====
-- Sessions that are added and removed.
use private_communication.Common.{◌≡◌, ◌≢◌, refl, inl, String, lookup, string_key, number_key}
use private_communication.Backend.Sessions.{
  SessionManager, empty_manager, add_session, remove_session, get_user_id,
}
use private_communication.Backend.Sessions.Consistent.{
  IsConsistent, IsFree, empty_manager-IsConsistent, add_session-IsConsistent,
}
use private_communication.Backend.Sessions.Removed.{
  view, assign, release, add_session-refines, remove_session-refines, remove_session-IsConsistent,
}
use private_communication.Tests.Servers.{quiet}

alice-IsFree : IsFree 1 "alice" empty_manager
unfolding empty_manager get_user_id lookup
alice-IsFree = inl refl

named : ◌≢◌ {A = String} "alice" ""
named e = cc (e)

alone : SessionManager
alone = (add_session "alice" 1 "k" 5 (empty_manager, quiet)).0

alone-IsConsistent : IsConsistent alone
unfolding alone
alone-IsConsistent =
    add_session-IsConsistent "alice" 1 "k" 5 empty_manager quiet named alice-IsFree
      empty_manager-IsConsistent

add_session-IsConsistent_example :
    IsConsistent (add_session "alice" 1 "k" 5 (empty_manager, quiet)).0
add_session-IsConsistent_example =
    add_session-IsConsistent "alice" 1 "k" 5 empty_manager quiet named alice-IsFree
      empty_manager-IsConsistent

remove_session-IsConsistent_example : IsConsistent (remove_session 1 alone).0
remove_session-IsConsistent_example = remove_session-IsConsistent 1 alone alone-IsConsistent

add_session-refines_example :
    view (add_session "alice" 3 "k" 5 (alone, quiet)).0 ≡ assign "alice" 3 (view alone)
add_session-refines_example = add_session-refines "alice" 3 "k" 5 alone quiet

remove_session-refines_example : view (remove_session 1 alone).0 ≡ release 1 (view alone)
remove_session-refines_example = remove_session-refines 1 alone alone-IsConsistent
