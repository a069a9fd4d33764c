-- ===== src/Harpoon/Redirect/Calls.antt =====
-- Calls of the registry that read or change the cache of explanations, one after another:
-- pkg/runtimeharpoon/registry.go.
use tunnel_client.Base.{ℕ, Bool, List, [], ◌∷◌, Bytes}
use tunnel_client.Harpoon.Urls.{Url, Net}
use tunnel_client.Harpoon.Target.{Target, Codec}
use tunnel_client.Harpoon.Registry.{
  Registry, Registration, registered, refused, register_target, empty_registry,
}
use tunnel_client.Harpoon.Redirect.{
  Entry, ExplainCache, default_redirect_explain_cache_limit, clear_explain_cache,
  explain_blocked_redirect,
}

pub data Call : Type 0 where
  register : Target → Call
  explain : Url → Call

pub record State : Type 0 where
  pub registry : Registry
  pub cache : ExplainCache

abbrev pub new_state : (allow_plaintext : Bool) → (limit : ℕ) → State
new_state allow_plaintext limit = record {
  registry = empty_registry allow_plaintext limit;
  cache = record { limit = default_redirect_explain_cache_limit; entries = []; order = [] };
}

-- A registration clears the cache; one that is refused changes nothing.
unfoldable pub settled : State → Registration → State
unfolding clear_explain_cache
settled s (registered r) = record { registry = r; cache = clear_explain_cache s.cache }
settled s (refused e) = s

abbrev pub explained : State → Entry × ExplainCache → State
explained s answer = record s { cache = answer.1 }

unfoldable pub call : Net → Codec → (digest : Bytes → Bytes) → Call → State → State
unfolding register_target explain_blocked_redirect settled
call net codec digest (register t) s = settled s (register_target net codec t s.registry)
call net codec digest (explain u) s =
    explained s (explain_blocked_redirect net digest s.registry u s.cache)

unfoldable pub calls : Net → Codec → (digest : Bytes → Bytes) → List Call → State → State
unfolding call
calls net codec digest [] s = s
calls net codec digest (c ∷ cs) s = calls net codec digest cs (call net codec digest c s)
