-- ===== src/Stdio/Exchange/Safe.antt =====
-- Late responses on the shared transport.
use tunnel_client.Base.{
  ℕ, ◌+◌, ◌≡◌, refl, ◌≢◌, ltb, length, inl, inr, Bool, true, false, Option, none, some, List, [],
  ◌∷◌, zero, suc, Bool-cases, arith, ◌↔◌, Bytes,
}
use tunnel_client.Stdio.{
  Transport, Wired, wired, still_retired, aliases_exhausted, alias_unbuildable, unfinished,
  contains, remove, next_alias, wire_response_id, try_alias, found_alias, rounds_for, Message,
  response, request, consume_retired_response_id, should_drop_retired_message,
}
use tunnel_client.Stdio.Exchange.{
  Connection, Exchange, Retirement, WriteEnd, taken, rejected, failed, cut_off, acquired, send,
  write_ended, read, retire_response_deadline, finish_retirement, begin_deadline_retirement,
  release_retired,
}

-- A step: a request with its method, the end of a write, a message read, or a deadline.
pub data Act (RequestId : Type 0) : Type 0 where
  sends : RequestId → Bytes → Act RequestId
  writes : WriteEnd → Act RequestId
  reads : Message RequestId → Act RequestId
  deadline : Act RequestId

module _ {RequestId : Type 0} (same : RequestId → RequestId → Bool) (is_valid : RequestId → Bool)
    (make_alias : ℕ → Option RequestId) (same_iff : (a b : RequestId) → (same a b ≡ true) ↔ (a ≡ b))
    (make_alias_valid : (n : ℕ) (a : RequestId) → make_alias n ≡ some a → is_valid a ≡ true) where
  abbrev pub act :
      Act RequestId → Exchange same is_valid make_alias → Exchange same is_valid make_alias
  act (sends caller method) x = send same is_valid make_alias caller method x
  act (writes e) x = write_ended same is_valid make_alias e x
  act (reads message) x = read same is_valid make_alias message x
  act deadline x = (retire_response_deadline same is_valid make_alias x).1

  abbrev pub acts :
      List (Act RequestId) → Exchange same is_valid make_alias → Exchange same is_valid make_alias
  acts [] x = x
  acts (a ∷ rest) x = acts rest (act a x)

  contains-remove-false :
      (a b : RequestId) (xs : List RequestId)
      → contains same a xs ≡ false
      → contains same a (remove same b xs) ≡ false
  unfolding contains remove
  contains-remove-false a b [] h = refl
  contains-remove-false a b (x ∷ xs) h = ground (arith, contains-remove-false a b xs (ground arith))

  -- An identifier to send is valid and not retired.
  abbrev IsFresh : List RequestId → Wired RequestId → Type 0
  IsFresh retired (wired w) = (contains same w retired ≡ false) × (is_valid w ≡ true)
  IsFresh retired still_retired = Unit {0}
  IsFresh retired aliases_exhausted = Unit {0}
  IsFresh retired alias_unbuildable = Unit {0}
  IsFresh retired unfinished = Unit {0}

  try_alias-IsFresh :
      (caller : RequestId) (retired : List RequestId) (n : ℕ) (o : Option RequestId)
      (again : Wired RequestId × ℕ)
      → ((a : RequestId) → o ≡ some a → is_valid a ≡ true)
      → IsFresh retired again.0
      → IsFresh retired (try_alias same is_valid make_alias caller retired n o again).0
  try_alias-IsFresh caller retired n none again v h = tt
  try_alias-IsFresh caller retired n (some a) again v h = ground (arith, v a refl)

  next_alias-IsFresh :
      (r : ℕ) (caller : RequestId) (retired : List RequestId) (n : ℕ)
      → IsFresh retired (next_alias same is_valid make_alias r caller retired n).0
  unfolding next_alias
  next_alias-IsFresh zero caller retired n = tt
  next_alias-IsFresh (suc r) caller retired n = ground (
    arith,
    try_alias-IsFresh caller retired (n + 1) (make_alias (n + 1))
        (next_alias same is_valid make_alias r caller retired (n + 1)) (make_alias_valid (n + 1))
        (next_alias-IsFresh r caller retired (n + 1)),
  )

  found_alias-IsFresh :
      (t : Transport RequestId) (r : Wired RequestId × ℕ)
      → IsFresh t.retired_response_ids r.0
      → IsFresh
          (found_alias same is_valid make_alias t r).1.retired_response_ids
          (found_alias same is_valid make_alias t r).0
  found_alias-IsFresh t (w, n) h = h

  wire_response_id-IsFresh :
      (caller : RequestId) (t : Transport RequestId)
      → is_valid caller ≡ true
      → IsFresh
          (wire_response_id same is_valid make_alias caller t).1.retired_response_ids
          (wire_response_id same is_valid make_alias caller t).0
  unfolding wire_response_id
  wire_response_id-IsFresh caller t h = ground (
    arith,
    found_alias-IsFresh t
        (next_alias same is_valid make_alias
          (rounds_for same is_valid make_alias t.retired_response_ids) caller t.retired_response_ids
          t.next_aliased_id)
        (next_alias-IsFresh (rounds_for same is_valid make_alias t.retired_response_ids) caller
          t.retired_response_ids t.next_aliased_id),
  )

  -- What the connection waits for is fresh.
  abbrev Expects : List RequestId → Bool → Option RequestId → Type 0
  Expects retired false o = Unit {0}
  Expects retired true none = ⊥
  Expects retired true (some w) = (contains same w retired ≡ false) × (is_valid w ≡ true)

  abbrev IsClear : Exchange same is_valid make_alias → Type 0
  IsClear x =
      Expects x.transport.retired_response_ids x.connection.lock_held x.connection.expected_id

  acquired-IsClear :
      (caller : RequestId) (method : Bytes) (t : Transport RequestId) (c : Connection RequestId)
      (w : Wired RequestId)
      → IsFresh t.retired_response_ids w
      → IsClear (acquired same is_valid make_alias caller method t c w)
  acquired-IsClear caller method t c (wired w) h = h
  acquired-IsClear caller method t c still_retired h = tt
  acquired-IsClear caller method t c aliases_exhausted h = tt
  acquired-IsClear caller method t c alias_unbuildable h = tt
  acquired-IsClear caller method t c unfinished h = tt

  send-IsClear :
      (caller : RequestId) (method : Bytes) (x : Exchange same is_valid make_alias)
      → IsClear x
      → IsClear (send same is_valid make_alias caller method x)
  unfolding send
  send-IsClear caller method x h = elim (Bool-cases (is_valid caller)) [
    | inl v ↦ ground (
      arith,
      acquired-IsClear caller method
          (wire_response_id same is_valid make_alias caller x.transport).1 x.connection
          (wire_response_id same is_valid make_alias caller x.transport).0
          (wire_response_id-IsFresh caller x.transport v),
    )
    | inr v ↦ ground arith
  ]

  write_ended-IsClear :
      (e : WriteEnd) (x : Exchange same is_valid make_alias)
      → IsClear x
      → IsClear (write_ended same is_valid make_alias e x)
  unfolding write_ended
  write_ended-IsClear taken x h = ground arith
  write_ended-IsClear rejected x h = ground arith
  write_ended-IsClear failed x h = ground arith
  write_ended-IsClear cut_off x h = ground arith

  Expects-remove :
      (id : RequestId) (retired : List RequestId) (held : Bool) (o : Option RequestId)
      → Expects retired held o
      → Expects (remove same id retired) held o
  Expects-remove id retired false o h = tt
  Expects-remove id retired true none h = h
  Expects-remove id retired true (some w) h = (contains-remove-false w id retired h.0, h.1)

  read-IsClear :
      (message : Message RequestId) (x : Exchange same is_valid make_alias)
      → IsClear x
      → IsClear (read same is_valid make_alias message x)
  unfolding read should_drop_retired_message consume_retired_response_id
  read-IsClear (request id method) x h = ground arith
  read-IsClear (response id is_error) x h = ground (
    arith,
    Expects-remove id x.transport.retired_response_ids x.connection.lock_held
        x.connection.expected_id h,
  )

  begin-same :
      (c : Connection RequestId)
      → ((begin_deadline_retirement c).connection.lock_held ≡ c.lock_held)
        × ((begin_deadline_retirement c).connection.expected_id ≡ c.expected_id)
  unfolding begin_deadline_retirement
  begin-same c = ground arith

  release_retired_lock : (c : Connection RequestId) → (release_retired c).lock_held ≡ false
  release_retired_lock c = ground arith

  finish-IsClear :
      (r : Retirement RequestId) (x : Exchange same is_valid make_alias)
      → Expects x.transport.retired_response_ids r.connection.lock_held r.connection.expected_id
      → IsClear (finish_retirement same is_valid make_alias r x).1
  unfolding finish_retirement
  finish-IsClear r x h = ground arith

  retire-IsClear :
      (x : Exchange same is_valid make_alias)
      → IsClear x
      → IsClear (retire_response_deadline same is_valid make_alias x).1
  unfolding retire_response_deadline
  retire-IsClear x h =
      let kept : Expects x.transport.retired_response_ids
          (begin_deadline_retirement x.connection).connection.lock_held
          (begin_deadline_retirement x.connection).connection.expected_id =
        rw ((begin-same x.connection).0, (begin-same x.connection).1) h in
      ground (arith, finish-IsClear (begin_deadline_retirement x.connection) x kept)

  acts-IsClear :
      (l : List (Act RequestId)) (x : Exchange same is_valid make_alias)
      → IsClear x
      → IsClear (acts l x)
  acts-IsClear [] x h = h
  acts-IsClear (sends caller method ∷ l) x h =
      acts-IsClear l (send same is_valid make_alias caller method x)
        (send-IsClear caller method x h)
  acts-IsClear (writes e ∷ l) x h =
      acts-IsClear l (write_ended same is_valid make_alias e x) (write_ended-IsClear e x h)
  acts-IsClear (reads message ∷ l) x h =
      acts-IsClear l (read same is_valid make_alias message x) (read-IsClear message x h)
  acts-IsClear (deadline ∷ l) x h =
      acts-IsClear l (retire_response_deadline same is_valid make_alias x).1 (retire-IsClear x h)

  -- A response to a retired request reaches no caller and disturbs no exchange, and as long as there
  -- is a retired request nor does a request or notification of the server; the response that the
  -- connection waits for reaches its caller under the identifier that the caller chose.
  pub record IsSafe (x : Exchange same is_valid make_alias) : Type 0 where
    pub drops_late :
        (id : RequestId) (is_error : Bool)
        → is_valid id ≡ true
        → contains same id x.transport.retired_response_ids ≡ true
        → ((read same is_valid make_alias (response id is_error) x).delivered ≡ none)
          × ((read same is_valid make_alias (response id is_error) x).connection ≡ x.connection)
    pub holds_back :
        (id : RequestId) (method : Bytes)
        → x.transport.retired_response_ids ≢ []
        → ((read same is_valid make_alias (request id method) x).delivered ≡ none)
          × ((read same is_valid make_alias (request id method) x).connection ≡ x.connection)
    pub delivers :
        (caller id : RequestId) (is_error : Bool)
        → x.connection.lock_held ≡ true
        → x.connection.awaiting_response ≡ true
        → x.connection.caller_id ≡ some caller
        → x.connection.expected_id ≡ some id
        → ((read same is_valid make_alias (response id is_error) x).delivered
            ≡ some (response caller is_error))
          × ((read same is_valid make_alias (response id is_error) x).connection.lock_held ≡ false)

  has_retired : (ids : List RequestId) → ids ≢ [] → ltb 0 (length ids) ≡ true
  has_retired [] h = absurd (h refl)
  has_retired (id ∷ ids) h = ground arith

  IsClear-IsSafe : (x : Exchange same is_valid make_alias) → IsClear x → IsSafe x
  unfolding read should_drop_retired_message consume_retired_response_id
  IsClear-IsSafe x h = record {
    drops_late = λ id is_error v k. rw (v, k) (refl, refl);
    holds_back = λ id method k. rw (has_retired x.transport.retired_response_ids k) (refl, refl);
    delivers = λ caller id is_error l w c e.
        let fresh : Expects x.transport.retired_response_ids true (some id) = (rw (l, e) at h) in
        let itself : same id id ≡ true = (same_iff id id).1 refl in
        rw (l, w, c, e, fresh.0, fresh.1, itself) (refl, refl);
  }

  -- From a free slot, after any requests, ends of writes, messages of the server and deadlines, in
  -- any order: a response with a valid identifier that is retired reaches no caller and leaves the
  -- connection as it is, and so does a request or notification of the server while any identifier
  -- is retired; and the response that the connection waits for, before or after its write has ended, is
  -- never taken for a retired one, but reaches its caller under the identifier that the caller
  -- chose, and frees the slot. The aliases are taken to be valid identifiers.
  pub acts-IsSafe :
      (l : List (Act RequestId)) (x : Exchange same is_valid make_alias)
      → x.connection.lock_held ≡ false
      → IsSafe (acts l x)
  acts-IsSafe l x h = IsClear-IsSafe (acts l x) (acts-IsClear l x (rw h tt))
