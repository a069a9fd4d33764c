-- ===== src/Tests/SharedConnection.antt =====
-- The shared connection in concrete runs.
use tunnel_client.Base.{◌≡◌, refl, true, false, none, some, List, [], ◌∷◌}
use tunnel_client.SharedConnection.{new_transport, connect, write, close}
use tunnel_client.SharedConnection.Ownership.{IsOwned}
use tunnel_client.SharedConnection.Writes.{IsOpenBase}
use tunnel_client.SharedConnection.Runs.{
  Call, connecting, invalidating, writing, closing, run, run-IsOwned, write-open,
}

-- A second initialization restarts the base, and a caller keeps its connection.
abbrev calls : List Call
calls =
    connecting none (some none)
    ∷ writing none true true (some none) 0
    ∷ writing none true true (some none) 0
    ∷ []

closed_test : (run calls (new_transport true)).closed ≡ 0 ∷ []
unfolding connect write
closed_test = refl

run-IsOwned_example : IsOwned (run calls (new_transport true))
run-IsOwned_example = run-IsOwned true calls

written : (write none false true none 0 (run calls (new_transport true))).0 ≡ some 1
unfolding connect write
written = refl

write-open_example : IsOpenBase 1 (write none false true none 0 (run calls (new_transport true))).1
write-open_example = write-open true calls none false true none 0 1 written

replaced_test :
    (write none false true none 0
      (run (invalidating ∷ closing 0 ∷ []) (run calls (new_transport true)))).0
    ≡ none
unfolding connect write close
replaced_test = refl
