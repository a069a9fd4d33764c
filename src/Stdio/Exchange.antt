-- ===== src/Stdio/Exchange.antt =====
-- One logical connection on the shared transport, and the sequence of requests, ends of their
-- writes, messages of the server and deadlines on it while the child is not replaced. The lifecycle
-- slot lets one connection at a time hold the transport: the connection of the model is the one
-- that has it or had it last.
pub mod Safe
use tunnel_client.Base.{
  ℕ, Bool, true, false, not, ◌&&◌, ◌||◌, Option, none, some, List, [], ◌∷◌, if◌then◌else◌, Bytes,
  codes, bytes_eq,
}
use tunnel_client.Stdio.{
  Transport, Wired, wired, still_retired, aliases_exhausted, alias_unbuildable, unfinished,
  wire_response_id, retire_response_id, should_drop_retired_message, Message, response, request,
}

-- An identifier that is not there is `none`.
pub record Connection (RequestId : Type 0) : Type 0 where
  pub lock_held : Bool
  pub write_started : Bool
  pub write_completed : Bool
  pub awaiting_response : Bool
  pub caller_id : Option RequestId
  pub expected_id : Option RequestId
  pub request_method : Bytes
  pub deadline_retirable : Bool
  pub retired : Bool

abbrev pub new_connection : {RequestId : Type 0} → Connection RequestId
new_connection = record {
  lock_held = false;
  write_started = false;
  write_completed = false;
  awaiting_response = false;
  caller_id = none;
  expected_id = none;
  request_method = [];
  deadline_retirable = false;
  retired = false;
}

-- `clearLifecycleStateLocked`.
abbrev pub clear_lifecycle_state :
    {RequestId : Type 0} → Connection RequestId → Connection RequestId
clear_lifecycle_state c = record c {
  lock_held = false;
  write_started = false;
  write_completed = false;
  awaiting_response = false;
  caller_id = none;
  expected_id = none;
  request_method = [];
}

abbrev pub release : {RequestId : Type 0} → Connection RequestId → Connection RequestId
release c =
    let cleared = if c.lock_held then clear_lifecycle_state c else c in
    record cleared { retired = false }

-- `shouldReleaseAfterRead` and the release: the slot stays while a response is awaited and a request
-- or a notification of the server was read.
abbrev pub release_after_read :
    {RequestId : Type 0} → Message RequestId → Connection RequestId → Connection RequestId
release_after_read (response id is_error) c =
    let released = release c in if c.lock_held then released else c
release_after_read (request id method) c =
    let released = release c in if c.lock_held && not c.awaiting_response then released else c

-- How a write ends: taken by the child; answered with an error or a status of 400 or more; failed;
-- or failed because the deadline of the response, or a cancellation under one, cut it off.
pub data WriteEnd : Type 0 where
  taken rejected failed cut_off : WriteEnd

-- What `completeObservedWrite` records.
abbrev pub complete_write :
    {RequestId : Type 0} → Bool → Connection RequestId → Connection RequestId
complete_write completed c =
    if c.lock_held && c.write_started then record c { write_completed = completed } else c

abbrev pub release_retired : {RequestId : Type 0} → Connection RequestId → Connection RequestId
release_retired c =
    let cleared = if c.lock_held then clear_lifecycle_state c else c in
    record cleared { retired = true }

abbrev pub cancel_deadline_retirement :
    {RequestId : Type 0} → Connection RequestId → Connection RequestId
cancel_deadline_retirement c = if c.lock_held then record c { retired = false } else c

-- The plan of a retirement: the identifier to track, whether to release, and whether it is handled.
pub record Retirement (RequestId : Type 0) : Type 0 where
  pub connection : Connection RequestId
  pub tracked_id : Option RequestId
  pub should_release : Bool
  pub handled : Bool

abbrev retirement :
    {RequestId : Type 0}
    → Connection RequestId
    → Option RequestId
    → Bool
    → Bool
    → Retirement RequestId
retirement c id should_release handled = record {
  connection = c;
  tracked_id = id;
  should_release = should_release;
  handled = handled;
}

unfoldable pub begin_deadline_retirement :
    {RequestId : Type 0} → Connection RequestId → Retirement RequestId
unfolding bytes_eq
begin_deadline_retirement c =
    if c.retired
    then retirement c none false true
    else if not c.lock_held
    then (if c.deadline_retirable
        then retirement (record c { deadline_retirable = false; retired = true }) none false true
        else retirement c none false false)
    else if not c.write_completed
    then retirement (record c { retired = true }) none true true
    else if bytes_eq c.request_method (codes "initialize")
    then retirement c none false false
    else if c.awaiting_response
    then retirement (record c { retired = true }) c.expected_id true true
    else retirement (record c { retired = true }) none true true

module _ {RequestId : Type 0} (same : RequestId → RequestId → Bool) (is_valid : RequestId → Bool)
    (make_alias : ℕ → Option RequestId) where
  -- The transport, the connection, and the message that the last step passed to a caller.
  pub record Exchange : Type 0 where
    pub transport : Transport RequestId
    pub connection : Connection RequestId
    pub delivered : Option (Message RequestId)

  abbrev pub acquired :
      RequestId → Bytes → Transport RequestId → Connection RequestId → Wired RequestId → Exchange
  acquired caller method t c (wired id) = record {
    transport = t;
    connection = record new_connection {
      lock_held = true;
      write_started = true;
      write_completed = false;
      awaiting_response = true;
      caller_id = some caller;
      expected_id = some id;
      request_method = method;
    };
    delivered = none;
  }
  acquired caller method t c still_retired = record {
    transport = t;
    connection = new_connection;
    delivered = none;
  }
  acquired caller method t c aliases_exhausted = record {
    transport = t;
    connection = new_connection;
    delivered = none;
  }
  acquired caller method t c alias_unbuildable = record {
    transport = t;
    connection = new_connection;
    delivered = none;
  }
  acquired caller method t c unfinished = record {
    transport = t;
    connection = new_connection;
    delivered = none;
  }

  -- `acquire`: a request that a new connection begins to write, when the slot is free.
  unfoldable pub send : RequestId → Bytes → Exchange → Exchange
  unfolding wire_response_id
  send caller method x =
      if x.connection.lock_held || not (is_valid caller)
      then record x { delivered = none }
      else acquired caller method (wire_response_id same is_valid make_alias caller x.transport).1
          x.connection (wire_response_id same is_valid make_alias caller x.transport).0

  abbrev pub is_expected : RequestId → Option RequestId → Bool
  is_expected id none = false
  is_expected id (some w) = same id w

  abbrev pub caller_or : RequestId → Option RequestId → RequestId
  caller_or id none = id
  caller_or id (some caller) = caller

  -- `restoreCallerResponseID`.
  abbrev pub restore_caller_response_id :
      Connection RequestId → Message RequestId → Message RequestId
  restore_caller_response_id c (response id is_error) =
      response
        (if c.lock_held && c.awaiting_response && is_expected id c.expected_id
          then caller_or id c.caller_id
          else id)
        is_error
  restore_caller_response_id c (request id method) = request id method

  abbrev pub rests : Connection RequestId → Exchange → Exchange
  rests c x = record x { connection = c; delivered = none }

  -- The end of the write, where a response is expected.
  unfoldable pub write_ended : WriteEnd → Exchange → Exchange
  write_ended taken x = rests (complete_write true x.connection) x
  write_ended rejected x = rests (release (complete_write true x.connection)) x
  write_ended failed x = rests (release (complete_write false x.connection)) x
  write_ended cut_off x =
      if x.transport.retire_on_deadline
      then rests (complete_write false x.connection) x
      else rests (release (complete_write false x.connection)) x

  -- A message that is read: it is dropped, or it goes to the caller; a response ends the exchange.
  unfoldable pub read : Message RequestId → Exchange → Exchange
  unfolding should_drop_retired_message
  read message x =
      let dropped = should_drop_retired_message same is_valid message x.transport in
      if dropped.0 then record x { transport = dropped.1; delivered = none } else record {
        transport = dropped.1;
        connection = release_after_read message x.connection;
        delivered = some (restore_caller_response_id x.connection message);
      }

  abbrev pub tracked : Option RequestId → Transport RequestId → Bool × Transport RequestId
  tracked none t = (true, t)
  tracked (some id) t = retire_response_id same is_valid id t

  -- A retirement whose identifier can be tracked, or that has none, releases the slot.
  unfoldable pub finish_retirement : Retirement RequestId → Exchange → Bool × Exchange
  unfolding retire_response_id
  finish_retirement r x =
      let kept = tracked r.tracked_id x.transport in
      if not r.handled
      then (false, rests r.connection x)
      else if not r.should_release
      then (true, rests r.connection x)
      else if kept.0
      then (
        true,
        record { transport = kept.1; connection = release_retired r.connection; delivered = none },
      )
      else (false, rests (cancel_deadline_retirement r.connection) x)

  unfoldable pub retire_response_deadline : Exchange → Bool × Exchange
  unfolding begin_deadline_retirement finish_retirement
  retire_response_deadline x =
      if not x.transport.retire_on_deadline
      then (false, rests x.connection x)
      else finish_retirement (begin_deadline_retirement x.connection) x
