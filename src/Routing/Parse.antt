-- ===== src/Routing/Parse.antt =====
-- The correction in a 409 answer: pkg/controlplane/wiretypes/routing.go. The JSON decoder is a
-- parameter: `members` gives the members of an object in order (`none` if the text is not one
-- JSON object and nothing else), and `string_value` decodes a JSON string.
pub mod Sound
use tunnel_client.Base.{
  ℕ, ◌+◌, ◌*◌, ◌-◌, ◌≤◌, ◌<◌, ◌≡◌, refl, Bool, true, false, not, ◌&&◌, ◌||◌, Option, none, some,
  List, [], ◌∷◌, arith, leb, ltb, ◌==◌, if◌then◌else◌, Bytes, bytes_eq, bytes_eq_iff, codes,
  is_empty, length, is_some, all_digits, parse_uint,
}
use tunnel_client.Routing.{RoutingCorrection}

abbrev pub max_routing_token_bytes : ℕ
max_routing_token_bytes = 4096

abbrev pub max_policy_revision : ℕ
max_policy_revision = 9007199254740991

abbrev pub wrong_cluster_code : Bytes
wrong_cluster_code = codes "wrong_cluster"

pub data ParseResult (A : Type 0) : Type 0 where
  parsed : A → ParseResult A
  invalid : ParseResult A

-- A visible byte of ASCII other than the comma.
unfoldable pub is_token_byte : ℕ → Bool
is_token_byte c = not (ltb c 0x21 || (ltb 0x7e c || c == 44))

unfoldable pub are_token_bytes : Bytes → Bool
unfolding is_token_byte
are_token_bytes [] = true
are_token_bytes (c ∷ s) = is_token_byte c && are_token_bytes s

unfoldable pub valid_routing_token : Bytes → Bool
unfolding are_token_bytes
valid_routing_token t =
    if length t == 0 || ltb max_routing_token_bytes (length t) then false else are_token_bytes t

abbrev pub Fields : Type 0
Fields = List (Bytes × Bytes)

unfoldable pub lookup : Bytes → Fields → Option Bytes
unfolding bytes_eq
lookup k [] = none
lookup k ((j, v) ∷ m) = if bytes_eq j k then some v else lookup k m

unfoldable pub contains : Bytes → List Bytes → Bool
unfolding bytes_eq
contains k [] = false
contains k (j ∷ ks) = bytes_eq j k || contains k ks

-- The loop of `routingObject`: known members are kept, a known member that comes twice is an
-- error, other members are passed over.
unfoldable pub collect : List Bytes → Fields → Fields → ParseResult Fields
unfolding lookup contains
collect keys fields [] = parsed fields
collect keys fields ((name, value) ∷ rest) =
    let kept = collect keys ((name, value) ∷ fields) rest in
    let passed = collect keys fields rest in
    if contains name keys then (if is_some (lookup name fields) then invalid else kept) else passed

module _ (members : Bytes → Option Fields) (string_value : Bytes → Option Bytes) where
  unfoldable pub routing_object : Bytes → List Bytes → ParseResult Fields
  unfolding collect
  routing_object body keys = elim (members body) [ none ↦ invalid | some ms ↦ collect keys [] ms ]

  -- The code of an error object is the wrong-cluster code. A missing member decodes to nothing.
  unfoldable pub is_wrong_cluster : Option Bytes → Bool
  unfolding bytes_eq
  is_wrong_cluster none = false
  is_wrong_cluster (some raw) = elim (string_value raw) [
    | none ↦ false
    | some code ↦ bytes_eq code wrong_cluster_code
  ]

  -- A token in the body has to be the one of the header.
  unfoldable pub body_token_agrees : Bytes → Option Bytes → Bool
  unfolding bytes_eq
  body_token_agrees token none = true
  body_token_agrees token (some raw) = elim (string_value raw) [
    | none ↦ false
    | some body_token ↦ bytes_eq body_token token
  ]

  unfoldable pub revision_of : Bytes → Bytes → ParseResult (Option RoutingCorrection)
  unfolding all_digits parse_uint
  revision_of token raw =
      if length raw == 0 || ltb 16 (length raw)
      then invalid
      else if not (all_digits raw)
      then invalid
      else elim (parse_uint raw) [
        | none ↦ invalid
        | some revision ↦
            if ltb max_policy_revision revision
            then invalid
            else parsed (some (record { shard_token = token; policy_revision = revision }))
      ]

  abbrev pub or_nothing : Option Bytes → Bytes
  or_nothing none = []
  or_nothing (some raw) = raw

  unfoldable pub correction_of : List Bytes → Fields → ParseResult (Option RoutingCorrection)
  unfolding is_wrong_cluster lookup valid_routing_token body_token_agrees revision_of
  correction_of (token ∷ []) metadata =
      if not (is_wrong_cluster (lookup (codes "code") metadata))
      then parsed none
      else if not (valid_routing_token token)
      then invalid
      else if not (body_token_agrees token (lookup (codes "shard_token") metadata))
      then invalid
      else revision_of token (or_nothing (lookup (codes "policy_revision") metadata))
  correction_of values metadata =
      if not (is_wrong_cluster (lookup (codes "code") metadata)) then parsed none else invalid

  unfoldable pub read_metadata :
      List Bytes → ParseResult Fields → ParseResult (Option RoutingCorrection)
  unfolding correction_of
  read_metadata values invalid = invalid
  read_metadata values (parsed metadata) = correction_of values metadata

  unfoldable pub read_error : List Bytes → Option Bytes → ParseResult (Option RoutingCorrection)
  unfolding routing_object read_metadata
  read_error values none = parsed none
  read_error values (some raw) =
      read_metadata values
        (routing_object raw (codes "code" ∷ codes "policy_revision" ∷ codes "shard_token" ∷ []))

  unfoldable pub read_envelope :
      List Bytes → ParseResult Fields → ParseResult (Option RoutingCorrection)
  unfolding read_error lookup
  read_envelope values invalid = invalid
  read_envelope values (parsed envelope) = read_error values (lookup (codes "error") envelope)

  -- `values` are the values of the shard token header.
  unfoldable pub parse_routing_correction :
      List Bytes → Bytes → ParseResult (Option RoutingCorrection)
  unfolding routing_object read_envelope
  parse_routing_correction values body =
      read_envelope values (routing_object body (codes "error" ∷ []))
