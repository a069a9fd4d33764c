-- ===== src/Tests/Channel.antt =====
-- A channel name.
use tunnel_client.Base.{◌≡◌, refl, some, none, codes, ◌↔◌}
use tunnel_client.Channel.{normalize_channel}
use tunnel_client.Channel.Normal.{Spells, normalize_channel_iff}

normalize_channel_iff_example :
    (normalize_channel (codes " Tools-2 ") ≡ some (codes "tools-2"))
    ↔ Spells (codes " Tools-2 ") (codes "tools-2")
normalize_channel_iff_example = normalize_channel_iff (codes " Tools-2 ") (codes "tools-2")

tools_accepted : normalize_channel (codes " Tools-2 ") ≡ some (codes "tools-2")
unfolding normalize_channel
tools_accepted = refl

blank_accepted : normalize_channel (codes " ") ≡ some (codes "main")
unfolding normalize_channel
blank_accepted = refl

two_words_refused : normalize_channel (codes "two words") ≡ none
unfolding normalize_channel
two_words_refused = refl
