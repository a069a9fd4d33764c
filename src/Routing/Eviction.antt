-- ===== src/Routing/Eviction.antt =====
-- A token that keeps failing is given up.
use tunnel_client.Base.{
  ◌+◌, ◌≤◌, ◌<◌, ◌≡◌, Bool, true, false, none, some, List, [], ◌∷◌, arith, All, length, ◌⊎◌, inl,
  inr, ap, subst, sym,
}
use tunnel_client.Routing.{
  PollRoutingState, RoutingCorrection, Outcome, PollResult, complete, snapshot, poll_outcome,
  complete_poll, poll_sequence,
}
use tunnel_client.Routing.Tokens.{IsPinned, complete-IsPinned}

-- The poll ends in the loss of its destination, without a correction.
abbrev pub IsLost : Bool × PollResult → Type 0
IsLost (canceled, r) =
    poll_outcome canceled r
    ≡ some (record { correction = none; available = false; failed_destination = true })

abbrev lost : Outcome
lost = record { correction = none; available = false; failed_destination = true }

lost_step :
    (s : PollRoutingState)
    → ((complete s (snapshot s) lost).token ≡ [])
      ⊎ ((complete s (snapshot s) lost).failures ≡ s.failures + 1)
unfolding complete snapshot
lost_step s = ground arith

lost_stays : (s : PollRoutingState) → s.token ≡ [] → (complete s (snapshot s) lost).token ≡ []
unfolding complete snapshot
lost_stays s e = ground arith

poll_lost :
    (s : PollRoutingState) (canceled : Bool) (r : PollResult) (rs : List (Bool × PollResult))
    → IsLost (canceled, r)
    → poll_sequence s ((canceled, r) ∷ rs) ≡ poll_sequence (complete s (snapshot s) lost) rs
unfolding poll_sequence complete_poll
poll_lost s canceled r rs h = ap (λ o. poll_sequence (complete_poll s (snapshot s) o) rs) h

stays_lost :
    (s : PollRoutingState) (rs : List (Bool × PollResult))
    → All IsLost rs
    → s.token ≡ []
    → (poll_sequence s rs).token ≡ []
unfolding poll_sequence
stays_lost s [] h e = e
stays_lost s ((canceled, r) ∷ rs) h e =
    subst (λ t. t.token ≡ []) (sym (poll_lost s canceled r rs h.0))
      (stays_lost (complete s (snapshot s) lost) rs h.1 (lost_stays s e))

-- However many failures were counted before, three polls in a row that lose their destination
-- leave the client without a token, so that the next poll is placed afresh.
pub lost_evicts :
    (s : PollRoutingState) (rs : List (Bool × PollResult))
    → IsPinned s
    → All IsLost rs
    → 3 ≤ s.failures + length rs
    → (poll_sequence s rs).token ≡ []
lost_evicts s [] p h n = absurd (omega (arith, p.failures_capped))
lost_evicts s ((canceled, r) ∷ rs) p h n =
    subst (λ t. t.token ≡ []) (sym (poll_lost s canceled r rs h.0))
      (elim (lost_step s) [
        | inl e ↦ stays_lost (complete s (snapshot s) lost) rs h.1 e
        | inr e ↦
            lost_evicts (complete s (snapshot s) lost) rs (complete-IsPinned s (snapshot s) lost p)
              h.1 (omega (arith, n, e))
      ])

-- The poll ends in a correction.
abbrev pub IsCorrected : Bool × PollResult → Type 0
IsCorrected (canceled, r) =
    (c : RoutingCorrection) × (f : Bool) × (poll_outcome canceled r
      ≡ some (record { correction = some c; available = false; failed_destination = f }))

corrected : RoutingCorrection → Bool → Outcome
corrected c f = record { correction = some c; available = false; failed_destination = f }

poll_corrected :
    (s : PollRoutingState) (canceled : Bool) (r : PollResult) (rs : List (Bool × PollResult))
    (h : IsCorrected (canceled, r))
    → poll_sequence s ((canceled, r) ∷ rs)
      ≡ poll_sequence (complete s (snapshot s) (corrected h.0 h.1)) rs
unfolding poll_sequence complete_poll corrected
poll_corrected s canceled r rs h = ap (λ o. poll_sequence (complete_poll s (snapshot s) o) rs) h.2

corrected_step :
    (s : PollRoutingState) (c : RoutingCorrection) (f : Bool)
    → s.corrections + 1 < 3
    → (complete s (snapshot s) (corrected c f)).corrections ≡ s.corrections + 1
unfolding complete snapshot corrected
corrected_step s c f h = ground arith

corrected_last :
    (s : PollRoutingState) (c : RoutingCorrection) (f : Bool)
    → s.corrections ≡ 2
    → (complete s (snapshot s) (corrected c f)).token ≡ []
unfolding complete snapshot corrected
corrected_last s c f h = ground arith

-- Corrections that follow one another without a successful poll cannot bounce the client for
-- ever: with the third one the client gives its token up, whichever tokens they name.
pub corrections_evict :
    (s : PollRoutingState) (rs : List (Bool × PollResult))
    → IsPinned s
    → All IsCorrected rs
    → s.corrections < 3
    → s.corrections + length rs ≡ 3
    → (poll_sequence s rs).token ≡ []
corrections_evict s [] p h lt n = absurd (omega (arith, lt, n))
corrections_evict s ((canceled, r) ∷ []) p h lt n =
    subst (λ t. t.token ≡ []) (sym (poll_corrected s canceled r [] h.0))
      (unfold poll_sequence in corrected_last s (h.0).0 (h.0).1 (omega arith))
corrections_evict s ((canceled, r) ∷ q ∷ rs) p h lt n =
    let e = corrected_step s (h.0).0 (h.0).1 (omega (arith, n)) in
    subst (λ t. t.token ≡ []) (sym (poll_corrected s canceled r (q ∷ rs) h.0))
      (corrections_evict (complete s (snapshot s) (corrected (h.0).0 (h.0).1)) (q ∷ rs)
        (complete-IsPinned s (snapshot s) (corrected (h.0).0 (h.0).1) p) h.1 (omega (arith, e, n))
        (omega (arith, e, n)))
