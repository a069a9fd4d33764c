-- ===== src/Base/Watch.antt =====
-- The change channel that each health component keeps: `Changes` hands out the current channel
-- and creates it on demand, `signal` closes it and forgets it. Channels are numbered as made.
use Prim.Native.Nat.{ℕ, ◌+◌}
use mathlib.Core.Path.{◌≡◌}
use mathlib.Core.Bool.{Bool, true, false, ◌||◌}
use mathlib.Core.Option.{Option, none, some}
use mathlib.Core.List.{List, [], ◌∷◌}
use native.Mathlib.Omega.{arith}
use tunnel_client.Base.Tests.{◌==◌}

pub record Notifier : Type 0 where
  pub changed : Option ℕ
  pub made : ℕ
  pub closed : List ℕ

abbrev pub no_notifier : Notifier
no_notifier = record { changed = none; made = 0; closed = [] }

current_changes : Option ℕ → Notifier → ℕ × Notifier
current_changes (some c) n = (c, n)
current_changes none n = (n.made, record n { changed = some n.made; made = n.made + 1 })

unfoldable pub changes : Notifier → ℕ × Notifier
unfolding current_changes
changes n = current_changes n.changed n

close_current : Option ℕ → Notifier → Notifier
close_current (some c) n = record n { changed = none; closed = c ∷ n.closed }
close_current none n = n

unfoldable pub signal : Notifier → Notifier
unfolding close_current
signal n = close_current n.changed n

abbrev pub holds : ℕ → List ℕ → Bool
holds c [] = false
holds c (d ∷ ds) = c == d || holds c ds

-- The channel that `changes` hands out is closed by the next `signal`.
pub signal-changes : (n : Notifier) → holds (changes n).0 (signal (changes n).1).closed ≡ true
unfolding changes signal
signal-changes n = ground arith
