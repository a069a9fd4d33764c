-- ===== src/Poller/Limit.antt =====
-- How much a poll asks for.
use tunnel_client.Base.{ℕ, ◌+◌, ◌≤◌, ◌<◌, arith}
use tunnel_client.Poller.{poll_limit, available_slots}

-- A poll that is made asks for at least one command, for at most 25, and never for more than
-- the queue has room for (one for a queue without a buffer).
pub poll_limit-available_slots :
    (capacity queued : ℕ)
    → 0 < available_slots capacity queued
    → (1 ≤ poll_limit (available_slots capacity queued))
      × (poll_limit (available_slots capacity queued) ≤ 25)
      × (0 < capacity → queued + poll_limit (available_slots capacity queued) ≤ capacity)
unfolding poll_limit available_slots
poll_limit-available_slots capacity queued h = ground arith
