-- ===== src/Tests/Stdio.antt =====
-- The shared stdio transport with numbers for identifiers.
use tunnel_client.Base.{
  ℕ, ◌+◌, ◌<◌, ◌≡◌, ◌≢◌, refl, Bool, true, false, Option, none, some, List, [], ◌∷◌, arith, codes,
  ◌==◌, ==_iff, ltb,
}
use tunnel_client.Stdio.{Transport, unfinished, wire_response_id, response, request}
use tunnel_client.Stdio.Retired.{AreDifferent, wire_response_id_ends}
use tunnel_client.Stdio.Exchange.{Exchange, new_connection, taken, cut_off}
use tunnel_client.Stdio.Exchange.Safe.{
  Act, sends, writes, reads, deadline, acts, IsSafe, acts-IsSafe,
}

abbrev is_valid : ℕ → Bool
is_valid n = ltb 0 n

abbrev make_alias : ℕ → Option ℕ
make_alias n = some (1000 + n)

make_alias_differs :
    (i j : ℕ) → i < j → AreDifferent ◌==◌ ==_iff is_valid make_alias (make_alias i) (make_alias j)
make_alias_differs i j h = ground arith

make_alias_valid : (n a : ℕ) → make_alias n ≡ some a → is_valid a ≡ true
make_alias_valid n a h = ground arith

abbrev transport : List ℕ → Transport ℕ
transport retired = record {
  alias_retired_ids = true;
  retire_on_deadline = true;
  ensure_initialized = false;
  generation = 0;
  generation_known = false;
  retired_response_ids = retired;
  next_aliased_id = 0;
  initialized_notification = false;
  require_initialization = false;
  initialize_succeeded = false;
  initialization_ready = false;
}

wire_response_id_ends_example :
    (wire_response_id ◌==◌ is_valid make_alias 7 (transport (1001 ∷ 7 ∷ []))).0 ≢ unfinished
wire_response_id_ends_example =
    wire_response_id_ends ◌==◌ ==_iff is_valid make_alias make_alias_differs 7
      (transport (1001 ∷ 7 ∷ []))

abbrev history : List (Act ℕ)
history =
    sends 7 (codes "tools/call")
    ∷ writes taken
    ∷ deadline
    ∷ sends 7 (codes "tools/call")
    ∷ reads (request 0 (codes "ping"))
    ∷ reads (response 7 false)
    ∷ writes cut_off
    ∷ []

abbrev start : Exchange ◌==◌ is_valid make_alias
start = record { transport = transport []; connection = new_connection; delivered = none }

acts-IsSafe_example :
    IsSafe ◌==◌ is_valid make_alias ==_iff make_alias_valid
      (acts ◌==◌ is_valid make_alias ==_iff make_alias_valid history start)
acts-IsSafe_example =
    acts-IsSafe ◌==◌ is_valid make_alias ==_iff make_alias_valid history start refl
