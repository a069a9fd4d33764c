-- ===== src/Responder/Accounting.antt =====
-- What a call of `PostResponse` adds to the delivery counters.
use tunnel_client.Base.{
  ℕ, zero, suc, ◌+◌, ◌≤◌, ◌<◌, ◌≡◌, refl, ◌⊎◌, inl, inr, Bool, Option, none, some, List, [], ◌∷◌,
  arith, length, ◌==◌, if◌then◌else◌, Time, Bool-cases,
}
use tunnel_client.Health.{max_uint64}
use tunnel_client.Health.Delivery.{
  DeliveryHealth, Disposition, failed, canceled, accepted, already_fulfilled, begin,
}
use tunnel_client.Responder.{
  Reply, not_replayed, unreached, answered, WaitEnd, elapsed, interrupted, Exchange, PostResult,
  PostError, delivered, refused, Posting, Decision, stop, again, decide, follow, post_loop,
  PostRequest, post_checked, post_response, finish_posting, or_default, notifies, refusal, view_of,
}
use tunnel_client.Responder.Attempts.{IsSettled, Posts}
use tunnel_client.Responder.Delivery.{initial, post_checked-Posts, refusal-ne-exhausted}

-- Only the tries were counted since `base`.
record Counts (base : DeliveryHealth) (q : Posting) : Type 0 where
  attempts : q.health.attempts ≡ base.attempts + length q.tries
  in_progress : q.health.in_progress ≡ base.in_progress
  completed : q.health.completed ≡ base.completed
  accepted_count : q.health.accepted_count ≡ base.accepted_count
  terminal_failures : q.health.terminal_failures ≡ base.terminal_failures

abbrev DecisionCounts : DeliveryHealth → Posting → Decision → Type 0
DecisionCounts base p (stop result q) = Counts base q
DecisionCounts base p (again delay q) = Counts base q × (length q.tries ≡ length p.tries + 1)

decide-Counts :
    (base : DeliveryHealth) (most : ℕ) (notification last : Bool) (n : ℕ) (e : Exchange) (r : Reply)
    (p : Posting)
    → base.attempts + most < max_uint64
    → length p.tries + 1 ≤ most
    → Counts base p
    → DecisionCounts base p (decide notification last n e r p)
unfolding decide
decide-Counts base most notification last n e not_replayed p b l h = ground arith
decide-Counts base most notification last n e (unreached view written) p b l h = ground arith
decide-Counts base most notification last n e (answered status (after, has)) p b l h = ground arith

follow-Counts :
    (base : DeliveryHealth) (p : Posting) (w : WaitEnd) (next : Posting → PostResult × Posting)
    (d : Decision)
    → DecisionCounts base p d
    → ((q : Posting) → Counts base q → length q.tries ≡ length p.tries + 1 → Counts base (next q).1)
    → Counts base (follow w next d).1
unfolding follow
follow-Counts base p w next (stop result q) h k = h
follow-Counts base p elapsed next (again delay q) h k =
    k (record q { waits = delay ∷ q.waits })
      (record {
        attempts = (h.0).attempts;
        in_progress = (h.0).in_progress;
        completed = (h.0).completed;
        accepted_count = (h.0).accepted_count;
        terminal_failures = (h.0).terminal_failures;
      })
      h.1
follow-Counts base p (interrupted e) next (again delay q) h k = h.0

post_loop-Counts :
    (env : ℕ → Exchange) (base : DeliveryHealth) (most : ℕ) (notification : Bool) (left n : ℕ)
    (p : Posting)
    → base.attempts + most < max_uint64
    → length p.tries + left ≤ most
    → Counts base p
    → Counts base (post_loop env notification left n p).1
unfolding post_loop
post_loop-Counts env base most notification zero n p b l h = h
post_loop-Counts env base most notification (suc left) n p b l h =
    follow-Counts base p (env n).wait_end (post_loop env notification left (n + 1))
      (decide notification (left == 0) n (env n) (env n).reply p)
      (decide-Counts base most notification (left == 0) n (env n) (env n).reply p b (omega arith) h)
      λ q c t. post_loop-Counts env base most notification left (n + 1) q b (omega (arith, t)) c

post_checked-Counts :
    (env : ℕ → Exchange) (attempts : ℕ) (notification : Bool) (o : Option PostError)
    (base : DeliveryHealth)
    → base.attempts + or_default attempts 3 < max_uint64
    → Counts base (post_checked env attempts notification o (initial base)).1
unfolding post_checked
post_checked-Counts env attempts notification (some e) base b = omega arith
post_checked-Counts env attempts notification none base b =
    post_loop-Counts env base (or_default attempts 3) notification (or_default attempts 3) 1
      (initial base) b (omega arith) (omega arith)

-- One for a delivery that ended with a reply of status 200.
abbrev pub newest_accepts : List Reply → ℕ
newest_accepts (answered status hint ∷ rs) = if status == 200 then 1 else 0
newest_accepts _ = 0

-- What one call adds to the counters.
pub record IsCounted (health : DeliveryHealth) (result : PostResult) (q : Posting) : Type 0 where
  pub attempts : q.health.attempts ≡ health.attempts + length q.tries
  pub in_progress : q.health.in_progress ≡ health.in_progress
  pub completed :
      q.health.completed ≡ health.completed + (elim result [ delivered ↦ 1 | refused e ↦ 0 ])
  pub ends :
      q.health.completed + q.health.terminal_failures
      ≡ health.completed + health.terminal_failures + (elim q.disposition [ canceled ↦ 0 | _ ↦ 1 ])
  pub accepted_count :
      q.health.accepted_count
      ≡ health.accepted_count + (elim result [ delivered ↦ newest_accepts q.tries | refused e ↦ 0 ])

-- How a delivery that succeeded was settled.
abbrev Settlement : List Reply → Disposition → Type 0
Settlement rs d =
    ((newest_accepts rs ≡ 1) × (d ≡ accepted)) ⊎ ((newest_accepts rs ≡ 0) × (d ≡ already_fulfilled))

IsSettled-Settlement : (rs : List Reply) (d : Disposition) → IsSettled rs d → Settlement rs d
IsSettled-Settlement [] d h = elim h [ ]
IsSettled-Settlement (not_replayed ∷ rs) d h = elim h [ ]
IsSettled-Settlement (unreached view written ∷ rs) d h = elim h [ ]
IsSettled-Settlement (answered s a ∷ rs) d h = ground arith

-- No counter of the component is at its largest value.
pub record HasRoom (health : DeliveryHealth) (tries : ℕ) : Type 0 where
  pub room_attempts : health.attempts + tries < max_uint64
  pub room_progress : health.in_progress < max_uint64
  pub room_completed : health.completed < max_uint64
  pub room_accepted : health.accepted_count < max_uint64
  pub room_failures : health.terminal_failures < max_uint64

finish-IsCounted_delivered :
    (health : DeliveryHealth) (now : Time) (p : Posting) (most : ℕ)
    → HasRoom health most
    → Counts (begin health) p
    → Settlement p.tries p.disposition
    → let (result, q) = finish_posting now (delivered, p) in IsCounted health result q
unfolding finish_posting begin
finish-IsCounted_delivered health now p most room c (inl (n, e)) = rw e (ground arith)
finish-IsCounted_delivered health now p most room c (inr (n, e)) = rw e (ground arith)

finish-IsCounted_refused :
    (health : DeliveryHealth) (now : Time) (e : PostError) (p : Posting) (most : ℕ)
    → HasRoom health most
    → Counts (begin health) p
    → p.disposition ≡ failed
    → let (result, q) = finish_posting now (refused e, p) in IsCounted health result q
unfolding finish_posting begin
finish-IsCounted_refused health now e p most room c d = elim (Bool-cases (view_of e).is_canceled) [
  | inl y ↦ rw y (ground arith)
  | inr n ↦ rw (n, d) (ground arith)
]

-- With room in its counters, a call counts each of its tries, leaves the number of deliveries
-- in progress as it was, and ends in exactly one counter: completed if it succeeded, a terminal
-- failure if it failed, none if it was canceled. The counter of accepted responses grows by one
-- exactly if the call succeeded and its last try was answered with status 200, and else stays.
pub post_response-IsCounted :
    (env : ℕ → Exchange) (attempts : ℕ) (r : PostRequest) (now : Time) (health : DeliveryHealth)
    → HasRoom health (or_default attempts 3)
    → let (result, q) = post_response env attempts r now health in IsCounted health result q
unfolding post_response
post_response-IsCounted env attempts r now health room =
    ended
      (post_checked env attempts (notifies r.response) (refusal r r.response)
        (initial (begin health)))
      (post_checked-Counts env attempts (notifies r.response) (refusal r r.response) (begin health)
        (unfold begin in room.room_attempts))
      (post_checked-Posts env attempts (notifies r.response) (refusal r r.response) (begin health)
        (refusal-ne-exhausted r r.response))
  where
    ended :
        (o : PostResult × Posting)
        → Counts (begin health) o.1
        → Posts (notifies r.response) (or_default attempts 3) failed o.0 o.1
        → IsCounted health (finish_posting now o).0 (finish_posting now o).1
    ended (delivered, p) c h =
        finish-IsCounted_delivered health now p (or_default attempts 3) room c
          (IsSettled-Settlement p.tries p.disposition (h.settled refl))
    ended (refused e, p) c h =
        finish-IsCounted_refused health now e p (or_default attempts 3) room c
          (h.unsettled (λ g. cc))
