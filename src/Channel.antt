-- ===== src/Channel.antt =====
-- Channel names (pkg/types/channel.go) and the payload that a worker returns
-- (pkg/types/tunnel_response.go). Texts are ASCII.
pub mod Trim
pub mod Normal
use tunnel_client.Base.{
  ℕ, Bool, true, false, not, ◌&&◌, ◌||◌, Option, none, some, [], ◌∷◌, ltb, leb, ◌==◌, if◌then◌else◌,
  Bytes, is_empty, codes, length, trim_space, to_lower,
}

abbrev pub default_channel : Bytes
default_channel = codes "main"

-- The pattern ^[a-z0-9_-]{1,64}$.
abbrev pub is_channel_byte : ℕ → Bool
is_channel_byte c = (leb 97 c && leb c 122) || ((leb 48 c && leb c 57) || (c == 95 || c == 45))

unfoldable pub are_channel_bytes : Bytes → Bool
are_channel_bytes [] = true
are_channel_bytes (c ∷ s) = is_channel_byte c && are_channel_bytes s

unfoldable pub matches_channel : Bytes → Bool
unfolding are_channel_bytes
matches_channel s = are_channel_bytes s && (ltb 0 (length s) && leb (length s) 64)

unfoldable pub canonical : Bytes → Bytes
unfolding to_lower trim_space
canonical c = to_lower (trim_space c)

unfoldable pub normalize_canonical : Bytes → Option Bytes
unfolding matches_channel
normalize_canonical c =
    if is_empty c then some default_channel else (if matches_channel c then some c else none)

unfoldable pub normalize_channel : Bytes → Option Bytes
unfolding canonical normalize_canonical
normalize_channel channel = normalize_canonical (canonical channel)

pub data ResponseType : Type 0 where
  jsonrpc_response : ResponseType
  jsonrpc_notification : ResponseType
  notification_acknowledgment : ResponseType
  oauth_discovery : ResponseType
  session_termination : ResponseType

pub record TunnelResponse : Type 0 where
  pub payload : Bytes
  pub response_code : ℕ
  pub response_type : ResponseType
  pub channel : Bytes

-- Whether a payload of the type must be absent or present.
abbrev pub carries_payload : ResponseType → Bool
carries_payload notification_acknowledgment = false
carries_payload session_termination = false
carries_payload _ = true

abbrev is_valid_channel : Option Bytes → Bool
is_valid_channel none = false
is_valid_channel (some c) = true

-- `Validate`, true where it returns no error.
unfoldable pub validate : TunnelResponse → Bool
unfolding normalize_channel
validate t =
    (if carries_payload t.response_type then not (is_empty t.payload) else is_empty t.payload)
    && (is_empty t.channel || is_valid_channel (normalize_channel t.channel))
