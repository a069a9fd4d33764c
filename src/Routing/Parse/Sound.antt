-- ===== src/Routing/Parse/Sound.antt =====
-- What an accepted correction guarantees.
use tunnel_client.Base.{
  ℕ, ◌+◌, ◌≤◌, ◌<◌, ◌≡◌, ◌≢◌, true, Option, none, some, List, [], ◌∷◌, arith, Bytes, bytes_eq,
  bytes_eq_iff, length, All, codes, if◌then◌else◌, is_some,
}
use tunnel_client.Routing.{RoutingCorrection}
use tunnel_client.Routing.Parse.{
  ParseResult, parsed, invalid, Fields, max_policy_revision, are_token_bytes, valid_routing_token,
  collect, lookup, contains, revision_of, correction_of, read_metadata, read_error, read_envelope,
  routing_object, parse_routing_correction, or_nothing,
}

-- A byte that may stand in a token: visible ASCII, not a comma.
abbrev pub IsTokenByte : ℕ → Type 0
IsTokenByte b = (0x21 ≤ b) × (b ≤ 0x7e) × (b ≢ 44)

are_token_bytes_sound : (t : Bytes) → are_token_bytes t ≡ true → All IsTokenByte t
unfolding are_token_bytes
are_token_bytes_sound [] h = tt
are_token_bytes_sound (b ∷ t) h = ground (arith, are_token_bytes_sound t)

valid_routing_token_sound :
    (t : Bytes)
    → valid_routing_token t ≡ true
    → All IsTokenByte t × (0 < length t) × (length t ≤ 4096)
unfolding valid_routing_token
valid_routing_token_sound t h = ground (arith, are_token_bytes_sound t)

-- The parts of an accepted correction.
pub record IsAccepted (values : List Bytes) (c : RoutingCorrection) : Type 0 where
  pub only_value : values ≡ c.shard_token ∷ []
  pub token_bytes : All IsTokenByte c.shard_token
  pub token_some : 0 < length c.shard_token
  pub token_short : length c.shard_token ≤ 4096
  pub exact_revision : c.policy_revision ≤ max_policy_revision

module _ (members : Bytes → Option Fields) (string_value : Bytes → Option Bytes) where
  revision_of_sound :
      (token raw : Bytes) (c : RoutingCorrection)
      → revision_of members string_value token raw ≡ parsed (some c)
      → (c.shard_token ≡ token) × (c.policy_revision ≤ max_policy_revision)
  unfolding revision_of
  revision_of_sound token raw c h = ground arith

  correction_of_sound :
      (values : List Bytes) (metadata : Fields) (c : RoutingCorrection)
      → correction_of members string_value values metadata ≡ parsed (some c)
      → IsAccepted values c
  unfolding correction_of
  correction_of_sound [] metadata c h = ground arith
  correction_of_sound (token ∷ []) metadata c h = ground (
    arith,
    valid_routing_token_sound token,
    revision_of_sound token
        (or_nothing members string_value (lookup (codes "policy_revision") metadata)) c,
  )
  correction_of_sound (token ∷ other ∷ values) metadata c h = ground arith

  read_metadata_sound :
      (values : List Bytes) (r : ParseResult Fields) (c : RoutingCorrection)
      → read_metadata members string_value values r ≡ parsed (some c)
      → IsAccepted values c
  unfolding read_metadata
  read_metadata_sound values invalid c h = cc
  read_metadata_sound values (parsed m) c h = correction_of_sound values m c h

  read_error_sound :
      (values : List Bytes) (o : Option Bytes) (c : RoutingCorrection)
      → read_error members string_value values o ≡ parsed (some c)
      → IsAccepted values c
  unfolding read_error
  read_error_sound values none c h = cc
  read_error_sound values (some raw) c h =
      read_metadata_sound values
        (routing_object members string_value raw
          (codes "code" ∷ codes "policy_revision" ∷ codes "shard_token" ∷ []))
        c h

  read_envelope_sound :
      (values : List Bytes) (r : ParseResult Fields) (c : RoutingCorrection)
      → read_envelope members string_value values r ≡ parsed (some c)
      → IsAccepted values c
  unfolding read_envelope
  read_envelope_sound values invalid c h = cc
  read_envelope_sound values (parsed m) c h = read_error_sound values (lookup (codes "error") m) c h

  -- An accepted correction names the only value of the header, which consists of 1 to 4096
  -- visible ASCII bytes with no comma, and a revision of at most 2 ^ 53 - 1.
  pub parse_routing_correction_sound :
      (values : List Bytes) (body : Bytes) (c : RoutingCorrection)
      → parse_routing_correction members string_value values body ≡ parsed (some c)
      → IsAccepted values c
  unfolding parse_routing_correction
  parse_routing_correction_sound values body c h =
      read_envelope_sound values (routing_object members string_value body (codes "error" ∷ [])) c h

-- How often a member comes in an object.
abbrev pub occurrences : Bytes → Fields → ℕ
occurrences k [] = 0
occurrences k ((j, v) ∷ ms) = (if bytes_eq j k then 1 else 0) + occurrences k ms

known_once :
    (keys : List Bytes) (k : Bytes) (fields ms out : Fields)
    → contains k keys ≡ true
    → collect keys fields ms ≡ parsed out
    → occurrences k ms + (if is_some (lookup k fields) then 1 else 0) ≤ 1
unfolding collect lookup
known_once keys k fields [] out c h = ground arith
known_once keys k fields ((j, v) ∷ ms) out c h = ground (
  arith,
  bytes_eq_iff j k,
  known_once keys k ((j, v) ∷ fields) ms out,
  known_once keys k fields ms out,
)

-- An object that is accepted has no known member twice, so no last-wins decoding can hide one.
pub collect_no_duplicates :
    (keys : List Bytes) (ms out : Fields) (k : Bytes)
    → contains k keys ≡ true
    → collect keys [] ms ≡ parsed out
    → occurrences k ms ≤ 1
unfolding lookup
collect_no_duplicates keys ms out k c h = omega (arith, known_once keys k [] ms out c h)
