-- ===== src/Tests/CallBuffer.antt =====
-- The ring buffer on concrete calls.
use tunnel_client.Base.{◌≡◌, some, List, [], ◌∷◌, codes, take, trim_space, Bytes}
use tunnel_client.CallBuffer.{CallEntry, zero_entry, snapshot, bounded_limit}
use tunnel_client.CallBuffer.Ring.{recorded, wanted, snapshot-recorded}

abbrev call : Bytes → CallEntry
call label = record zero_entry { label = label }

abbrev calls : List CallEntry
calls = call (codes "b") ∷ call (codes "a") ∷ call (codes "b") ∷ []

snapshot-recorded_example :
    snapshot 1 (codes " b ") (recorded calls)
    ≡ some (take (bounded_limit 100 1) (wanted (trim_space (codes " b ")) (take 100 calls)))
snapshot-recorded_example = snapshot-recorded calls 1 (codes " b ")
