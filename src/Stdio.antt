-- ===== src/Stdio.antt =====
-- The shared stdio transport: pkg/mcpclient/serialized_forwarding_transport.go. The identifiers
-- of the jsonrpc package are a type with an equality, a test of validity and a constructor of the
-- aliases, which are parameters. The methods hold their locks: each is one step.
pub mod Retired
pub mod Exchange
use tunnel_client.Base.{
  ℕ, ◌+◌, Bool, true, false, not, ◌&&◌, ◌||◌, Option, none, some, List, [], ◌∷◌, ltb, leb, ◌==◌,
  zero, suc, if◌then◌else◌, Bytes, codes, is_empty, bytes_eq, length,
}
use tunnel_client.Health.{max_uint64}

abbrev pub max_retired_response_ids : ℕ
max_retired_response_ids = 1024

-- `retired_response_ids` has the keys of the map, each once.
pub record Transport (RequestId : Type 0) : Type 0 where
  pub alias_retired_ids : Bool
  pub retire_on_deadline : Bool
  pub ensure_initialized : Bool
  pub generation : ℕ
  pub generation_known : Bool
  pub retired_response_ids : List RequestId
  pub next_aliased_id : ℕ
  pub initialized_notification : Bool
  pub require_initialization : Bool
  pub initialize_succeeded : Bool
  pub initialization_ready : Bool

-- What `wireResponseID` answers, with its three errors; `unfinished` is a search cut short.
pub data Wired (RequestId : Type 0) : Type 0 where
  wired : RequestId → Wired RequestId
  still_retired : Wired RequestId
  aliases_exhausted : Wired RequestId
  alias_unbuildable : Wired RequestId
  unfinished : Wired RequestId

pub data Message (RequestId : Type 0) : Type 0 where
  response : RequestId → (is_error : Bool) → Message RequestId
  request : RequestId → (method : Bytes) → Message RequestId

-- A child replacement starts a new wire protocol session.
unfoldable pub transition_generation :
    {RequestId : Type 0} → ℕ → Bool → Transport RequestId → Transport RequestId
transition_generation generation known t =
    if not known || (t.generation_known && t.generation == generation) then t else record t {
      generation = generation;
      generation_known = true;
      retired_response_ids = [];
      next_aliased_id = 0;
      initialized_notification = false;
      initialize_succeeded = false;
      initialization_ready = false;
    }

module _ {RequestId : Type 0} (same : RequestId → RequestId → Bool) where
  unfoldable pub contains : RequestId → List RequestId → Bool
  contains id [] = false
  contains id (x ∷ xs) = same id x || contains id xs

  unfoldable pub remove : RequestId → List RequestId → List RequestId
  remove id [] = []
  remove id (x ∷ xs) = let rest = remove id xs in if same id x then rest else x ∷ rest

module _ {RequestId : Type 0} (same : RequestId → RequestId → Bool)
    (is_valid : RequestId → Bool) where
  unfoldable pub retire_response_id : RequestId → Transport RequestId → Bool × Transport RequestId
  unfolding contains
  retire_response_id id t =
      if not (is_valid id)
      then (false, t)
      else if contains same id t.retired_response_ids
      then (true, t)
      else if leb max_retired_response_ids (length t.retired_response_ids)
      then (false, t)
      else (true, record t { retired_response_ids = id ∷ t.retired_response_ids })

  unfoldable pub consume_retired_response_id :
      RequestId → Transport RequestId → Bool × Transport RequestId
  unfolding contains remove
  consume_retired_response_id id t =
      if is_valid id && contains same id t.retired_response_ids
      then (true, record t { retired_response_ids = remove same id t.retired_response_ids })
      else (false, t)

  abbrev pub has_retired_response_ids : Transport RequestId → Bool
  has_retired_response_ids t = ltb 0 (length t.retired_response_ids)

  unfoldable pub should_drop_retired_message :
      Message RequestId → Transport RequestId → Bool × Transport RequestId
  unfolding consume_retired_response_id
  should_drop_retired_message (response id is_error) t =
      if is_valid id then consume_retired_response_id id t else (false, t)
  should_drop_retired_message (request id method) t = (has_retired_response_ids t, t)

module _ {RequestId : Type 0} (same : RequestId → RequestId → Bool) (is_valid : RequestId → Bool)
    (make_alias : ℕ → Option RequestId) where
  abbrev pub try_alias :
      RequestId → List RequestId → ℕ → Option RequestId → Wired RequestId × ℕ → Wired RequestId × ℕ
  try_alias caller retired n none again = (alias_unbuildable, n)
  try_alias caller retired n (some alias) again =
      if same alias caller || contains same alias retired then again else (wired alias, n)

  -- The loop over the aliases, with the number of rounds left.
  unfoldable pub next_alias : ℕ → RequestId → List RequestId → ℕ → Wired RequestId × ℕ
  unfolding contains
  next_alias zero caller retired n = (unfinished, n)
  next_alias (suc rounds) caller retired n =
      let again = next_alias rounds caller retired (n + 1) in
      if n == max_uint64
      then (aliases_exhausted, n)
      else try_alias caller retired (n + 1) (make_alias (n + 1)) again

  abbrev pub found_alias :
      Transport RequestId → Wired RequestId × ℕ → Wired RequestId × Transport RequestId
  found_alias t (w, n) = (w, record t { next_aliased_id = n })

  -- More rounds than there are identifiers to avoid.
  abbrev pub rounds_for : List RequestId → ℕ
  rounds_for retired = length retired + 2

  unfoldable pub wire_response_id :
      RequestId → Transport RequestId → Wired RequestId × Transport RequestId
  unfolding contains next_alias
  wire_response_id caller t =
      if not (is_valid caller) || not (contains same caller t.retired_response_ids)
      then (wired caller, t)
      else if not t.alias_retired_ids
      then (still_retired, t)
      else found_alias t (
          next_alias (rounds_for t.retired_response_ids) caller t.retired_response_ids
            t.next_aliased_id)
