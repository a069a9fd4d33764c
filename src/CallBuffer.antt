-- ===== src/CallBuffer.antt =====
-- The ring buffer of recent calls: pkg/harpoon/call_buffer.go. A panic on an index out of bounds
-- is `none` in `snapshot`.
pub mod Ring
use tunnel_client.Base.{
  ℕ, ◌+◌, ◌-◌, ◌%◌, Bool, true, false, not, ◌&&◌, ◌||◌, Option, none, some, List, [], ◌∷◌, ltb,
  ◌==◌, zero, suc, if◌then◌else◌, Bytes, is_empty, Time, bytes_eq, trim_space, length, set,
  get_elem?, replicate, zero_time, map,
}

abbrev pub call_buffer_size : ℕ
call_buffer_size = 100

pub record CallEntry : Type 0 where
  pub timestamp : Time
  pub label : Bytes
  pub url : Bytes
  pub method : Bytes
  pub status : ℕ
  pub latency_ms : ℕ
  pub response_content_type : Bytes
  pub req_bytes : ℕ
  pub resp_bytes : ℕ
  pub error : Bytes
  pub request_body : Bytes
  pub response_body : Bytes
  pub response_body_transformed : Bytes
  pub body_is_base64 : Bool

abbrev pub zero_entry : CallEntry
zero_entry = record {
  timestamp = zero_time;
  label = [];
  url = [];
  method = [];
  status = 0;
  latency_ms = 0;
  response_content_type = [];
  req_bytes = 0;
  resp_bytes = 0;
  error = [];
  request_body = [];
  response_body = [];
  response_body_transformed = [];
  body_is_base64 = false;
}

pub record CallBuffer : Type 0 where
  pub entries : List CallEntry
  pub next : ℕ
  pub count : ℕ

abbrev pub new_call_buffer : CallBuffer
new_call_buffer = record { entries = replicate call_buffer_size zero_entry; next = 0; count = 0 }

unfoldable pub record_call : CallEntry → CallBuffer → CallBuffer
record_call entry b = if length b.entries == 0 then b else record {
  entries = set b.entries b.next entry;
  next = (b.next + 1) % length b.entries;
  count = if ltb b.count (length b.entries) then b.count + 1 else b.count;
}

-- `next - 1 - i`, with the length added where that is below 0.
unfoldable pub index : ℕ → ℕ → ℕ → ℕ
index size next i = if ltb next (1 + i) then (next + size) - (1 + i) else next - (1 + i)

abbrev pub is_wanted : Bytes → CallEntry → Bool
is_wanted label entry = is_empty label || bytes_eq entry.label label

abbrev pub room_after : Bytes → Option CallEntry → ℕ → ℕ
room_after label none room = room
room_after label (some e) room = if is_wanted label e then room - 1 else room

abbrev pub cons : {A : Type 0} → A → Option (List A) → Option (List A)
cons a none = none
cons a (some l) = some (a ∷ l)

unfoldable pub visit : Bytes → Option CallEntry → Option (List CallEntry) → Option (List CallEntry)
visit label none rest = none
visit label (some e) rest = if is_wanted label e then cons e rest else rest

-- The loop: `left` rounds are left, the next with index `i`, and there is room for `room` more.
unfoldable pub scan : CallBuffer → Bytes → (left i room : ℕ) → Option (List CallEntry)
unfolding index visit
scan b label zero i room = some []
scan b label (suc left) i room =
    let found = get_elem? b.entries (index (length b.entries) b.next i) in
    let rest = scan b label left (i + 1) (room_after label found room) in
    if room == 0 then some [] else visit label found rest

-- A limit of 0 or less, and one above the size, stand for the size.
abbrev pub bounded_limit : ℕ → ℕ → ℕ
bounded_limit size limit = if limit == 0 || ltb size limit then size else limit

unfoldable pub snapshot : (limit : ℕ) → Bytes → CallBuffer → Option (List CallEntry)
unfolding scan trim_space
snapshot limit label b =
    if length b.entries == 0 || b.count == 0
    then some []
    else scan b (trim_space label) b.count 0 (
        if ltb b.count (bounded_limit (length b.entries) limit)
        then b.count
        else bounded_limit (length b.entries) limit)
