-- ===== src/Responder/Attempts.antt =====
-- Which tries the loop makes, and what it returns.
use tunnel_client.Base.{
  ℕ, ◌+◌, ◌≤◌, ◌≡◌, ◌≢◌, ◌∙◌, ◌⊎◌, inl, inr, Bool, true, false, ◌&&◌, List, [], ◌∷◌, arith, length,
  All,
}
use tunnel_client.Health.Delivery.{Disposition, accepted, already_fulfilled}
use tunnel_client.Responder.{
  Reply, not_replayed, unreached, answered, WaitEnd, elapsed, interrupted, Exchange, PostResult,
  delivered, refused, exhausted, Posting, Decision, stop, again, decide, follow,
  is_retryable_response_status,
}

-- A reply after which the source may send again: it was retryable, and a notification can not
-- have been accepted.
abbrev pub MayRepeat : Bool → Reply → Type 0
MayRepeat notification not_replayed = ⊥
MayRepeat notification (unreached view written) = (notification && written) ≡ false
MayRepeat notification (answered status hint) =
    (is_retryable_response_status status ≡ true) × ((notification ≡ true) → (status ≡ 429))

-- The reply by which the service took the response, or knew it already.
abbrev pub IsDelivery : Reply → Disposition → Type 0
IsDelivery (answered s h) d = ((s ≡ 200) × (d ≡ accepted)) ⊎ ((s ≡ 404) × (d ≡ already_fulfilled))
IsDelivery _ d = ⊥

-- What a decision leaves in the call's variables.
abbrev pub Decides : Bool → Bool → Reply → Posting → Decision → Type 0
Decides notification last r p (stop result q) =
    (result ≢ refused exhausted)
    × ((q.tries ≡ p.tries) ⊎ (q.tries ≡ r ∷ p.tries))
    × (result ≡ delivered → (q.tries ≡ r ∷ p.tries) × IsDelivery r q.disposition)
    × (result ≢ delivered → q.disposition ≡ p.disposition)
Decides notification last r p (again delay q) =
    (q.tries ≡ r ∷ p.tries)
    × MayRepeat notification r
    × (last ≡ false)
    × (q.disposition ≡ p.disposition)

pub decide-Decides :
    (notification last : Bool) (n : ℕ) (e : Exchange) (r : Reply) (p : Posting)
    → Decides notification last r p (decide notification last n e r p)
unfolding decide
decide-Decides notification last n e not_replayed p = ground arith
decide-Decides notification last n e (unreached view written) p = ground arith
decide-Decides notification last n e (answered status (after, has)) p = ground arith

abbrev pub tail : List Reply → List Reply
tail [] = []
tail (r ∷ rs) = rs

-- The newest try settled the delivery.
abbrev pub IsSettled : List Reply → Disposition → Type 0
IsSettled [] d = ⊥
IsSettled (r ∷ rs) d = IsDelivery r d

pub record Posts (notification : Bool) (most : ℕ) (start : Disposition) (result : PostResult)
    (q : Posting) : Type 0 where
  pub not_exhausted : result ≢ refused exhausted
  pub bounded : length q.tries ≤ most
  pub repeatable : All (MayRepeat notification) (tail q.tries)
  pub settled : result ≡ delivered → IsSettled q.tries q.disposition
  pub unsettled : result ≢ delivered → q.disposition ≡ start

All-tail :
    (notification : Bool) (rs : List Reply)
    → All (MayRepeat notification) rs
    → All (MayRepeat notification) (tail rs)
All-tail notification [] h = tt
All-tail notification (r ∷ rs) h = h.1

pub follow-Posts :
    (notification last : Bool) (most : ℕ) (start : Disposition) (r : Reply) (p : Posting)
    (w : WaitEnd) (next : Posting → PostResult × Posting) (d : Decision)
    → Decides notification last r p d
    → All (MayRepeat notification) p.tries
    → length p.tries + 1 ≤ most
    → p.disposition ≡ start
    → ((q : Posting)
        → last ≡ false
        → q.tries ≡ r ∷ p.tries
        → MayRepeat notification r
        → q.disposition ≡ start
        → Posts notification most start (next q).0 (next q).1)
    → Posts notification most start (follow w next d).0 (follow w next d).1
unfolding follow
follow-Posts notification last most start r p w next (stop result q) h a l s k = elim h.1 [
  | inl e ↦ record {
    not_exhausted = h.0;
    bounded = rw e (omega arith);
    repeatable = rw e (All-tail notification p.tries a);
    settled = λ g. rw (h.2 g).0 (h.2 g).1;
    unsettled = λ g. h.3 g ∙ s;
  }
  | inr e ↦ record {
    not_exhausted = h.0;
    bounded = rw e (omega arith);
    repeatable = rw e a;
    settled = λ g. rw (h.2 g).0 (h.2 g).1;
    unsettled = λ g. h.3 g ∙ s;
  }
]
follow-Posts notification last most start r p elapsed next (again delay q) h a l s k =
    k (record q { waits = delay ∷ q.waits }) h.2 h.0 h.1 (h.3 ∙ s)
follow-Posts notification last most start r p (interrupted e) next (again delay q) h a l s k =
    record {
      not_exhausted = λ g. cc;
      bounded = rw h.0 (omega arith);
      repeatable = rw h.0 a;
      settled = λ g. cc;
      unsettled = λ g. h.3 ∙ s;
    }
