-- ===== src/SharedConnection.antt =====
-- The transport that logical connections share: pkg/mcpclient/shared_connection_transport.go. The
-- base connections are objects of a heap, named by numbers in the order in which the base opens them;
-- shared connections are objects too, since callers keep them after the transport drops them.
-- A method is one step: outside the lock it closes a base that it has detached, and `Write` takes the
-- lock once more before and after it writes; other calls in between are not modelled.
pub mod Counts
pub mod Ownership
pub mod Writes
pub mod Runs
use tunnel_client.Base.{
  ℕ, zero, suc, ◌+◌, Bool, true, false, not, ◌&&◌, ◌||◌, Option, none, some, List, [], ◌∷◌, ◌==◌,
  if◌then◌else◌, length, get_elem?, set,
}

-- `sharedConnection`, with the number of its base connection.
pub record Connection : Type 0 where
  pub base : Option ℕ
  pub has_written : Bool
  pub generation : Option ℕ

-- `opened` counts the base connections so far; `closed` has those that were closed, newest first.
-- `connections` is the heap, and `current` the transport's own one.
pub record Transport : Type 0 where
  pub restart_on_initialize : Bool
  pub current : Option ℕ
  pub connections : List Connection
  pub opened : ℕ
  pub closed : List ℕ

abbrev pub new_transport : Bool → Transport
new_transport restart_on_initialize = record {
  restart_on_initialize = restart_on_initialize;
  current = none;
  connections = [];
  opened = 0;
  closed = [];
}

abbrev pub detached : Connection → Connection
detached c = record c { base = none; has_written = false }

abbrev pub close_base : Option ℕ → List ℕ → List ℕ
close_base none closed = closed
close_base (some b) closed = b ∷ closed

-- `connectionCurrentLocked`, with the provider's generation if there is a provider.
abbrev pub is_current_generation : Option ℕ → Option ℕ → Bool
is_current_generation none generation = true
is_current_generation (some now) none = true
is_current_generation (some now) (some generation) = generation == now

abbrev pub detach_at : ℕ → Option Connection → Transport → Transport
detach_at h none t = t
detach_at h (some c) t = record t {
  connections = set t.connections h (detached c);
  closed = close_base c.base t.closed;
}

abbrev pub drop_current : Option ℕ → Transport → Transport
drop_current none t = t
drop_current (some h) t = record (detach_at h (get_elem? t.connections h) t) { current = none }

-- `invalidate`.
unfoldable pub invalidate : Transport → Transport
invalidate t = drop_current t.current t

-- The base's answer to `Connect`: an error, or a connection with the generation it reports.
abbrev pub Opened : Type 0
Opened = Option (Option ℕ)

abbrev pub append_connection : Connection → List Connection → List Connection
append_connection c [] = c ∷ []
append_connection c (d ∷ ds) = d ∷ append_connection c ds

abbrev pub connect_base : Opened → Transport → Option ℕ × Transport
connect_base none t = (none, t)
connect_base (some generation) t = (
  some (length t.connections),
  record t {
    current = some (length t.connections);
    connections =
        append_connection
          (record { base = some t.opened; has_written = false; generation = generation })
          t.connections;
    opened = suc t.opened;
  },
)

-- The transport's own connection, if it is of the present generation.
abbrev pub reusable : Option ℕ → Option ℕ → List Connection → Option ℕ
reusable provider none cs = none
reusable provider (some h) cs = elim (get_elem? cs h) [
  | none ↦ none
  | some c ↦ if is_current_generation provider c.generation then some h else none
]

abbrev pub connect_with : Option ℕ → Opened → Transport → Option ℕ × Transport
connect_with (some h) answer t = (some h, t)
connect_with none answer t = connect_base answer (invalidate t)

-- `Connect`: a stale connection is detached before the base is asked for a new one.
unfoldable pub connect : (provider : Option ℕ) → Opened → Transport → Option ℕ × Transport
unfolding invalidate
connect provider answer t = connect_with (reusable provider t.current t.connections) answer t

-- `currentBase` of a shared connection.
abbrev pub base_of : Option ℕ → Option Connection → Option ℕ
base_of provider none = none
base_of provider (some c) = if is_current_generation provider c.generation then c.base else none

unfoldable pub current_base : (provider : Option ℕ) → ℕ → Transport → Option ℕ
current_base provider h t = base_of provider (get_elem? t.connections h)

abbrev pub is_at : ℕ → Option ℕ → Bool
is_at h none = false
is_at h (some k) = h == k

abbrev pub restart_at : ℕ → Opened → Option Connection → Transport → Bool × Transport
restart_at h answer none t = (true, t)
restart_at h none (some c) t = (not c.has_written, t)
restart_at h (some generation) (some c) t = if not c.has_written then (true, t) else (
  true,
  record t {
    connections = set t.connections h (record c { base = some t.opened; has_written = false });
    opened = suc t.opened;
    closed = close_base c.base t.closed;
  },
)

-- `restartForInitialize`, false where it fails.
unfoldable pub restart_for_initialize :
    (is_initialize : Bool) → ℕ → Opened → Transport → Bool × Transport
restart_for_initialize is_initialize h answer t =
    if t.restart_on_initialize && (is_initialize && is_at h t.current)
    then restart_at h answer (get_elem? t.connections h) t
    else (true, t)

abbrev pub mark_at : ℕ → Option Connection → Transport → Transport
mark_at h none t = t
mark_at h (some c) t = record t {
  connections = set t.connections h (record c { has_written = true });
}

-- `Write`, with what the base answers: the base that was written to, if any.
abbrev pub write_to : Bool → ℕ → Option ℕ → Transport → Option ℕ × Transport
write_to accepted h none t = (none, t)
write_to accepted h (some b) t =
    (some b, (if accepted then mark_at h (get_elem? t.connections h) t else t))

abbrev pub write_after : Option ℕ → Bool → ℕ → Bool × Transport → Option ℕ × Transport
write_after provider accepted h (false, t) = (none, t)
write_after provider accepted h (true, t) = write_to accepted h (current_base provider h t) t

unfoldable pub write :
    (provider : Option ℕ)
    → (is_initialize accepted : Bool) → Opened
    → ℕ
    → Transport
    → Option ℕ × Transport
unfolding restart_for_initialize current_base
write provider is_initialize accepted answer h t =
    write_after provider accepted h (restart_for_initialize is_initialize h answer t)

-- `Close` of a shared connection.
unfoldable pub close : ℕ → Transport → Transport
close h t =
    let current = if is_at h t.current then none else t.current in
    record (detach_at h (get_elem? t.connections h) t) { current = current }
