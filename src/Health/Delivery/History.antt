-- ===== src/Health/Delivery/History.antt =====
-- What the delivery counters say of the deliveries made.
use tunnel_client.Base.{
  ℕ, ◌+◌, ◌≤◌, ◌<◌, ◌≡◌, Bool, true, false, List, [], ◌∷◌, arith, length, Bytes, Time,
  if◌then◌else◌,
}
use tunnel_client.Health.{max_uint64}
use tunnel_client.Health.Delivery.{
  DeliveryHealth, Disposition, failed, canceled, accepted, new_delivery_health, begin, attempt,
  attempt_failed, finish,
}

pub data DeliveryEvent : Type 0 where
  begun : DeliveryEvent
  tried : (retry : Bool) → DeliveryEvent
  try_failed : Time → Bytes → ℕ → DeliveryEvent
  finished : Time → Disposition → Bytes → ℕ → DeliveryEvent

unfoldable pub observe : DeliveryEvent → DeliveryHealth → DeliveryHealth
unfolding begin attempt attempt_failed finish
observe begun s = begin s
observe (tried retry) s = attempt retry s
observe (try_failed now category status) s = attempt_failed now category status s
observe (finished now disposition category status) s = finish now disposition category status s

-- Newest observation first; the deliveries of several workers may interleave.
unfoldable pub after : List DeliveryEvent → DeliveryHealth
unfolding observe
after [] = new_delivery_health
after (e ∷ es) = observe e (after es)

abbrev pub count : (DeliveryEvent → Bool) → List DeliveryEvent → ℕ
count p [] = 0
count p (e ∷ es) = (if p e then 1 else 0) + count p es

abbrev pub is_begun : DeliveryEvent → Bool
is_begun begun = true
is_begun _ = false

abbrev pub is_tried : DeliveryEvent → Bool
is_tried (tried retry) = true
is_tried _ = false

abbrev pub is_retried : DeliveryEvent → Bool
is_retried (tried retry) = retry
is_retried _ = false

abbrev pub is_finished : DeliveryEvent → Bool
is_finished (finished now d category status) = true
is_finished _ = false

abbrev pub ends_accepted : DeliveryEvent → Bool
ends_accepted (finished now accepted category status) = true
ends_accepted _ = false

abbrev pub ends_failed : DeliveryEvent → Bool
ends_failed (finished now failed category status) = true
ends_failed _ = false

abbrev pub ends_canceled : DeliveryEvent → Bool
ends_canceled (finished now canceled category status) = true
ends_canceled _ = false

-- No delivery ends before it began.
abbrev pub IsBalanced : List DeliveryEvent → Type 0
IsBalanced [] = Unit {0}
IsBalanced (e ∷ es) = (count is_finished (e ∷ es) ≤ count is_begun (e ∷ es)) × IsBalanced es

pub record IsExact (es : List DeliveryEvent) (s : DeliveryHealth) : Type 0 where
  pub in_progress : s.in_progress + count is_finished es ≡ count is_begun es
  pub attempts : s.attempts ≡ count is_tried es
  pub retries : s.retries ≡ count is_retried es
  pub accepted_exact : s.accepted_count ≡ count ends_accepted es
  pub failures : s.terminal_failures ≡ count ends_failed es
  pub completed : s.completed + s.terminal_failures + count ends_canceled es ≡ count is_finished es

counts_le :
    (es : List DeliveryEvent)
    → (count is_begun es ≤ length es)
      × (count is_tried es ≤ length es)
      × (count is_retried es ≤ length es)
      × (count is_finished es ≤ length es)
      × (count ends_accepted es ≤ length es)
      × (count ends_failed es ≤ length es)
counts_le [] = omega arith
counts_le (e ∷ es) = ground (arith, counts_le es)

-- The counters are exact over every history of fewer than 2 ^ 64 - 1 observations in which
-- no delivery ends before it began, however the deliveries interleave.
pub after-IsExact :
    (es : List DeliveryEvent) → length es < max_uint64 → IsBalanced es → IsExact es (after es)
unfolding after
after-IsExact [] l b = omega arith
after-IsExact (begun ∷ es) l b = ground (arith, counts_le es, after-IsExact es)
after-IsExact (tried retry ∷ es) l b = ground (arith, counts_le es, after-IsExact es)
after-IsExact (try_failed now category status ∷ es) l b =
    ground (arith, counts_le es, after-IsExact es)
after-IsExact (finished now d category status ∷ es) l b =
    ground (arith, counts_le es, after-IsExact es)
