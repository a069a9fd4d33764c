-- ===== src/Readiness/Rule.antt =====
-- When the client is ready, and that it stays so.
use tunnel_client.Base.{
  ℕ, ◌≡◌, ◌⊎◌, ◌↔◌, refl, Bool, true, false, not, Option, none, some, List, [], ◌∷◌, arith, All,
  Bytes, ◌&&◌, if◌then◌else◌, sym, subst,
}
use tunnel_client.Readiness.{
  ProbeError, DiscoveryAttempt, Discovery, Latch, set, is_disabled_message, all_not_found,
  is_optional_discovery_failure, closed_gate, discovery_block, probe_status, blocked_by,
  readiness_status, Body, has_url, attempts_of, has_error, is_optional_error,
}

-- An attempt that was made, was not chosen, and found nothing.
abbrev pub IsNotFound : DiscoveryAttempt → Type 0
IsNotFound a = (a.tried ≡ true) × (a.selected ≡ false) × (a.status_code ≡ 404)

abbrev pub IsOpen : Option (Bool × Bytes) → Type 0
IsOpen none = Unit {0}
IsOpen (some (is_ready, reason)) = is_ready ≡ true

abbrev pub IsUnadvertised : Option Bytes → Option (List DiscoveryAttempt) → Type 0
IsUnadvertised url none = ⊥
IsUnadvertised url (some []) = ⊥
IsUnadvertised none (some (a ∷ l)) = All IsNotFound (a ∷ l)
IsUnadvertised (some url) (some (a ∷ l)) = (url ≡ []) × All IsNotFound (a ∷ l)

-- A discovery that does not stand in the way.
abbrev pub IsHarmless : Discovery → Option Bytes → Type 0
IsHarmless d none = Unit {0}
IsHarmless d (some message) =
    (is_disabled_message message ≡ true) ⊎ IsUnadvertised d.probe_url d.attempts

abbrev pub IsDiscovered : Option (Latch Discovery) → Type 0
IsDiscovered none = Unit {0}
IsDiscovered (some none) = ⊥
IsDiscovered (some (some d)) = IsHarmless d d.error

abbrev pub IsProbed : Option (Latch (Option ProbeError)) → Type 0
IsProbed none = Unit {0}
IsProbed (some none) = ⊥
IsProbed (some (some none)) = Unit {0}
IsProbed (some (some (some e))) =
    (e.is_auth_required ≡ true) ⊎ ((e.is_startup_wait_timeout ≡ false) × (e.is_timeout ≡ true))

closed_gate_iff :
    (gates : List (Option (Bool × Bytes))) → (closed_gate gates ≡ none) ↔ All IsOpen gates
unfolding closed_gate
closed_gate_iff [] = ground arith
closed_gate_iff (none ∷ gs) = ground (arith, closed_gate_iff gs)
closed_gate_iff (some (is_ready, reason) ∷ gs) = ground (arith, closed_gate_iff gs)

all_not_found_iff : (l : List DiscoveryAttempt) → (all_not_found true l ≡ true) ↔ All IsNotFound l
unfolding all_not_found
all_not_found_iff [] = ground arith
all_not_found_iff (a ∷ l) = ground (arith, all_not_found_iff l)

all_not_found_first :
    (a : DiscoveryAttempt) (l : List DiscoveryAttempt)
    → all_not_found false (a ∷ l) ≡ all_not_found true (a ∷ l)
unfolding all_not_found
all_not_found_first a l = refl

IsUnadvertised-iff :
    (url : Option Bytes) (attempts : Option (List DiscoveryAttempt))
    → ((if has_url url then false else all_not_found false (attempts_of attempts)) ≡ true)
      ↔ IsUnadvertised url attempts
unfolding all_not_found
IsUnadvertised-iff none none = ground arith
IsUnadvertised-iff none (some []) = ground arith
IsUnadvertised-iff none (some (a ∷ l)) = all_not_found_iff (a ∷ l)
IsUnadvertised-iff (some []) none = ground arith
IsUnadvertised-iff (some []) (some []) = ground arith
IsUnadvertised-iff (some []) (some (a ∷ l)) = ground (arith, all_not_found_iff (a ∷ l))
IsUnadvertised-iff (some (c ∷ u)) none = ground arith
IsUnadvertised-iff (some (c ∷ u)) (some []) = ground arith
IsUnadvertised-iff (some (c ∷ u)) (some (a ∷ l)) = ground arith

IsHarmless-iff :
    (d : Discovery) (error : Option Bytes)
    → ((has_error error && not (is_optional_error d error)) ≡ false) ↔ IsHarmless d error
IsHarmless-iff d none = ground arith
IsHarmless-iff d (some message) = ground (arith, IsUnadvertised-iff d.probe_url d.attempts)

discovery_block_iff : (d : Option (Latch Discovery)) → (discovery_block d ≡ none) ↔ IsDiscovered d
unfolding discovery_block is_optional_discovery_failure
discovery_block_iff none = ground arith
discovery_block_iff (some none) = ground arith
discovery_block_iff (some (some d)) = ground (arith, IsHarmless-iff d d.error)

probe_status_iff :
    (p : Option (Latch (Option ProbeError))) → ((probe_status p).0 ≡ 200) ↔ IsProbed p
unfolding probe_status
probe_status_iff none = ground arith
probe_status_iff (some none) = ground arith
probe_status_iff (some (some none)) = ground arith
probe_status_iff (some (some (some e))) = ground arith

blocked_by_iff :
    (gate : Option Bytes) (d : Option Body) (p : ℕ × Body)
    → ((blocked_by gate d p).0 ≡ 200) ↔ ((gate ≡ none) × (d ≡ none) × (p.0 ≡ 200))
blocked_by_iff (some reason) d p = ground arith
blocked_by_iff none (some body) p = ground arith
blocked_by_iff none none p = ground arith

-- The client is ready exactly if every gate is open; the OAuth discovery, where there is one, is
-- over and did not fail, or failed because it is disabled, or failed with no probe URL after at
-- least one attempt, each of which was made, was not selected and got status 404; and the startup
-- probe, where there is one, is over and did not fail, or needs authentication, or timed out
-- without exhausting the startup wait.
pub readiness_status_iff :
    (gates : List (Option (Bool × Bytes))) (d : Option (Latch Discovery))
    (p : Option (Latch (Option ProbeError)))
    → ((readiness_status gates d p).0 ≡ 200) ↔ (All IsOpen gates × IsDiscovered d × IsProbed p)
unfolding readiness_status
readiness_status_iff gates d p = ground (
  arith,
  blocked_by_iff (closed_gate gates) (discovery_block d) (probe_status p),
  closed_gate_iff gates,
  discovery_block_iff d,
  probe_status_iff p,
)

-- Results that are recorded one after the other.
abbrev pub sets : {A : Type 0} → List A → Latch A → Latch A
sets [] l = l
sets (a ∷ rest) l = sets rest (set a l)

abbrev pub record_all : {A : Type 0} → List A → Option (Latch A) → Option (Latch A)
record_all l none = none
record_all l (some latch) = some (sets l latch)

sets-some : {A : Type 0} (l : List A) (a : A) → sets l (some a) ≡ some a
unfolding set
sets-some [] a = refl
sets-some (b ∷ rest) a = sets-some rest a

IsDiscovered-record_all :
    (l : List Discovery) (d : Option (Latch Discovery))
    → IsDiscovered d
    → IsDiscovered (record_all l d)
IsDiscovered-record_all l none h = tt
IsDiscovered-record_all l (some none) h = elim h [ ]
IsDiscovered-record_all l (some (some d)) h = rw (sets-some l d) h

IsProbed-record_all :
    (l : List (Option ProbeError)) (p : Option (Latch (Option ProbeError)))
    → IsProbed p
    → IsProbed (record_all l p)
IsProbed-record_all l none h = tt
IsProbed-record_all l (some none) h = elim h [ ]
IsProbed-record_all l (some (some e)) h = subst (λ o. IsProbed (some o)) (sym (sets-some l e)) h

-- A client that is ready stays ready, while its gates stay as they are, whatever results the
-- discovery and the probe record after that.
pub readiness_status_stays :
    (gates : List (Option (Bool × Bytes))) (d : Option (Latch Discovery))
    (p : Option (Latch (Option ProbeError))) (results : List Discovery)
    (probes : List (Option ProbeError))
    → (readiness_status gates d p).0 ≡ 200
    → (readiness_status gates (record_all results d) (record_all probes p)).0 ≡ 200
readiness_status_stays gates d p results probes h =
    let (gates_open, discovered, probed) = (readiness_status_iff gates d p).0 h in
    (readiness_status_iff gates (record_all results d) (record_all probes p)).1 (
      gates_open,
      IsDiscovered-record_all results d discovered,
      IsProbed-record_all probes p probed,
    )
