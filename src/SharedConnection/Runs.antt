-- ===== src/SharedConnection/Runs.antt =====
-- What the shared transport promises over any sequence of calls from its start.
use tunnel_client.Base.{ℕ, ◌≡◌, refl, Bool, Option, some, List, [], ◌∷◌, arith}
use tunnel_client.SharedConnection.{
  Transport, new_transport, invalidate, Opened, connect, write, close,
}
use tunnel_client.SharedConnection.Ownership.{
  IsOwned, connect-IsOwned, invalidate-IsOwned, close-IsOwned,
}
use tunnel_client.SharedConnection.Writes.{IsOpenBase, write-IsOwned, write-IsOpenBase}

-- A call of the transport or of a shared connection, with what the base answers.
pub data Call : Type 0 where
  connecting : (provider : Option ℕ) (answer : Opened) → Call
  invalidating : Call
  writing : (provider : Option ℕ) (is_initialize accepted : Bool) (answer : Opened) (h : ℕ) → Call
  closing : (h : ℕ) → Call

abbrev after_call : Call → Transport → Transport
after_call (connecting provider answer) t = (connect provider answer t).1
after_call invalidating t = invalidate t
after_call (writing provider is_initialize accepted answer h) t =
    (write provider is_initialize accepted answer h t).1
after_call (closing h) t = close h t

abbrev pub run : List Call → Transport → Transport
run [] t = t
run (c ∷ cs) t = run cs (after_call c t)

after_call-IsOwned : (c : Call) (t : Transport) → IsOwned t → IsOwned (after_call c t)
after_call-IsOwned (connecting provider answer) t i = connect-IsOwned provider answer t i
after_call-IsOwned invalidating t i = invalidate-IsOwned t i
after_call-IsOwned (writing provider is_initialize accepted answer h) t i =
    write-IsOwned provider is_initialize accepted answer h t i
after_call-IsOwned (closing h) t i = close-IsOwned h t i

run-IsOwned_from : (cs : List Call) (t : Transport) → IsOwned t → IsOwned (run cs t)
run-IsOwned_from [] t i = i
run-IsOwned_from (c ∷ cs) t i = run-IsOwned_from cs (after_call c t) (after_call-IsOwned c t i)

new_transport-IsOwned : (restarts : Bool) → IsOwned (new_transport restarts)
new_transport-IsOwned restarts = record { each_once = λ b. ground arith; alone = refl }

-- After any sequence of calls, one after another, on a new transport, whatever the base answers, each
-- base connection it ever opened either was closed exactly once and no shared connection holds it, or was never
-- closed and exactly one shared connection holds it; nothing else was closed; and at most one
-- base is held, by the connection that the transport has as its own.
pub run-IsOwned : (restarts : Bool) (cs : List Call) → IsOwned (run cs (new_transport restarts))
run-IsOwned restarts cs =
    run-IsOwned_from cs (new_transport restarts) (new_transport-IsOwned restarts)

-- After any sequence of calls, one after another, on a new transport, a write on any shared
-- connection, also on one that the transport has replaced, that reaches a base reaches one that was opened and is not closed.
pub write-open :
    (restarts : Bool) (cs : List Call) (provider : Option ℕ) (is_initialize accepted : Bool)
    (answer : Opened) (h b : ℕ)
    → (write provider is_initialize accepted answer h (run cs (new_transport restarts))).0 ≡ some b
    → IsOpenBase b
        (write provider is_initialize accepted answer h (run cs (new_transport restarts))).1
write-open restarts cs provider is_initialize accepted answer h b e =
    write-IsOpenBase provider is_initialize accepted answer h (run cs (new_transport restarts)) b
      (run-IsOwned restarts cs) e
