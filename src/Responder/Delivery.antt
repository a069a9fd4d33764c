-- ===== src/Responder/Delivery.antt =====
-- What a whole call of `PostResponse` guarantees.
use tunnel_client.Base.{
  ℕ, zero, suc, ◌+◌, ◌≤◌, ◌<◌, ◌≡◌, ◌≢◌, refl, ◌⊎◌, inl, inr, Bool, Option, none, some, [], arith,
  length, All, ◌==◌, Time, Bool-cases,
}
use tunnel_client.Channel.{TunnelResponse}
use tunnel_client.Health.Delivery.{DeliveryHealth, Disposition, failed, canceled, begin}
use tunnel_client.Responder.{
  Exchange, PostResult, PostError, delivered, refused, exhausted, Posting, decide, post_loop,
  PostRequest, post_checked, post_response, finish_posting, or_default, notifies, refusal, view_of,
}
use tunnel_client.Responder.Attempts.{
  Posts, MayRepeat, IsSettled, tail, decide-Decides, follow-Posts,
}

post_loop-Posts :
    (env : ℕ → Exchange) (notification : Bool) (most : ℕ) (start : Disposition) (left n : ℕ)
    (p : Posting)
    → 0 < left
    → All (MayRepeat notification) p.tries
    → length p.tries + left ≤ most
    → p.disposition ≡ start
    → Posts notification most start
        (post_loop env notification left n p).0
        (post_loop env notification left n p).1
unfolding post_loop
post_loop-Posts env notification most start zero n p pos a l s = absurd (omega arith)
post_loop-Posts env notification most start (suc left) n p pos a l s =
    follow-Posts notification (left == 0) most start (env n).reply p (env n).wait_end
      (post_loop env notification left (n + 1))
      (decide notification (left == 0) n (env n) (env n).reply p)
      (decide-Decides notification (left == 0) n (env n) (env n).reply p) a (omega arith) s
      λ q more t m d.
        post_loop-Posts env notification most start left (n + 1) q (ground arith) (rw t (m, a))
          (rw t (omega arith)) d

abbrev pub initial : DeliveryHealth → Posting
initial health = record {
  health = health;
  disposition = failed;
  health_status = 0;
  tries = [];
  waits = [];
}

pub post_checked-Posts :
    (env : ℕ → Exchange) (attempts : ℕ) (notification : Bool) (o : Option PostError)
    (health : DeliveryHealth)
    → o ≢ some exhausted
    → let (result, q) = post_checked env attempts notification o (initial health) in
      Posts notification (or_default attempts 3) failed result q
unfolding post_checked
post_checked-Posts env attempts notification (some e) health h = record {
  not_exhausted = λ g. h (ground arith);
  bounded = omega arith;
  repeatable = tt;
  settled = λ g. cc;
  unsettled = λ g. refl;
}
post_checked-Posts env attempts notification none health h =
    post_loop-Posts env notification (or_default attempts 3) failed (or_default attempts 3) 1
      (initial health) (ground arith) tt (ground arith) refl

pub refusal-ne-exhausted :
    (r : PostRequest) (o : Option TunnelResponse) → refusal r o ≢ some exhausted
unfolding refusal
refusal-ne-exhausted r none = ground arith
refusal-ne-exhausted r (some t) = ground arith

-- Success is a settled reply; any other result is recorded as a failure or a cancellation.
abbrev pub EndsAs : PostResult → Posting → Type 0
EndsAs delivered q = IsSettled q.tries q.disposition
EndsAs (refused e) q = (q.disposition ≡ failed) ⊎ (q.disposition ≡ canceled)

-- The guarantees of a call that ended.
pub record IsPosted (r : PostRequest) (attempts : ℕ) (result : PostResult) (q : Posting)
    : Type 0 where
  pub not_exhausted : result ≢ refused exhausted
  pub bounded : length q.tries ≤ or_default attempts 3
  pub repeatable : All (MayRepeat (notifies r.response)) (tail q.tries)
  pub ending : EndsAs result q

finish_posting-IsPosted :
    (r : PostRequest) (attempts : ℕ) (now : Time) (result : PostResult) (p : Posting)
    → Posts (notifies r.response) (or_default attempts 3) failed result p
    → let (result', q) = finish_posting now (result, p) in IsPosted r attempts result' q
unfolding finish_posting
finish_posting-IsPosted r attempts now delivered p h = record {
  not_exhausted = h.not_exhausted;
  bounded = h.bounded;
  repeatable = h.repeatable;
  ending = h.settled refl;
}
finish_posting-IsPosted r attempts now (refused e) p h = record {
  not_exhausted = h.not_exhausted;
  bounded = h.bounded;
  repeatable = h.repeatable;
  ending = elim (Bool-cases (view_of e).is_canceled) [
    | inl c ↦ inr (rw c)
    | inr c ↦ inl (rw c (h.unsettled (λ g. cc)))
  ];
}

-- A call sends at most as many times as configured (three by default) and never runs out of its
-- loop. It sends again only after a retryable reply; a notification is sent again only if no write
-- of its request was observed, or after status 429. It returns success only by a reply of status
-- 200 or 404, recorded as its disposition, and otherwise records failure or cancellation.
pub post_response-IsPosted :
    (env : ℕ → Exchange) (attempts : ℕ) (r : PostRequest) (now : Time) (health : DeliveryHealth)
    → let (result, q) = post_response env attempts r now health in IsPosted r attempts result q
unfolding post_response
post_response-IsPosted env attempts r now health =
    let checked =
      post_checked env attempts (notifies r.response) (refusal r r.response)
        (initial (begin health)) in
    finish_posting-IsPosted r attempts now checked.0 checked.1 (
      post_checked-Posts env attempts (notifies r.response) (refusal r r.response) (begin health)
        (refusal-ne-exhausted r r.response))
