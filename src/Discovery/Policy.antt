-- ===== src/Discovery/Policy.antt =====
-- Which failure a pass reports.
use tunnel_client.Base.{
  ℕ, ◌+◌, ◌≡◌, refl, ◌∙◌, ap, Bool, true, false, not, ◌&&◌, ◌||◌, Option, none, some, List, [], ◌∷◌,
  ltb, leb, ◌==◌, if◌then◌else◌, arith, ◌⊎◌,
}
use tunnel_client.ErrorView.{ErrorView}
use tunnel_client.Discovery.{
  FailureType, timeout_only, non_timeout, retryable_response, ResponseFailures, no_failures,
  classify_discovery_failure, is_timeout_type, is_retryable_discovery_response_status,
  record_failure, classify, with_discovery_failure_type, Body, unread, oversized, empty, invalid,
  valid, Fetch, unbuilt, unanswered, answered, PassResult, selected, failed, falls_back, Pass,
  start_pass, Visit, goes_on, ends, visit_body, visit, is_more, visit_next, run_pass, Metadata,
  found, metadata_failed, ended,
}

-- What a failure at one candidate says of the whole.
pub data Kind : Type 0 where
  timed_out missing temporary lasting : Kind

abbrev status_kind : ℕ → (unusable : Bool) → Kind
status_kind status unusable =
    if status == 404
    then missing
    else if is_retryable_discovery_response_status status
        || (unusable && (leb 200 status && ltb status 300))
    then temporary
    else lasting

abbrev error_kind : ErrorView → Kind → Kind
error_kind err otherwise =
    if is_timeout_type (classify_discovery_failure err) then timed_out else otherwise

-- The failure at a candidate, if it is one that is not the last or that has no valid metadata.
abbrev pub kind_of : Bool → Fetch → Option Kind
kind_of more (unbuilt err) = some (error_kind err lasting)
kind_of more (unanswered err) = some (error_kind err lasting)
kind_of more (answered status (unread err)) = some (error_kind err (status_kind status true))
kind_of more (answered status oversized) = some (status_kind status false)
kind_of more (answered status empty) = some (status_kind status true)
kind_of more (answered status invalid) = some (status_kind status (not (falls_back status more)))
kind_of more (answered status valid) =
    if falls_back status more then some (status_kind status false) else none

-- Whether the next candidate, if there is one, is asked after a failure.
abbrev pub asks_next : Bool → Fetch → Bool
asks_next more (answered status body) = falls_back status more
asks_next more f = true

abbrev pub Outcome : Type 0
Outcome = List Kind × Option (ℕ × ℕ)

abbrev choice : ℕ → Fetch → Option (ℕ × ℕ)
choice i (answered status body) = some (i, status)
choice i f = none

abbrev add_kind : Kind → Outcome → Outcome
add_kind k (ks, chosen) = (k ∷ ks, chosen)

abbrev outcome_at : ℕ → Fetch → Option Kind → Bool → Outcome → Outcome
outcome_at i f none asks rest = ([], choice i f)
outcome_at i f (some k) asks rest = if asks then add_kind k rest else (k ∷ [], none)

-- The failures at the candidates that are asked, in order, and the one that is chosen with its status.
abbrev pub outcome : ℕ → List Fetch → Outcome
outcome i [] = ([], none)
outcome i (f ∷ fs) =
    let rest = outcome (i + 1) fs in
    outcome_at i f (kind_of (is_more fs) f) (asks_next (is_more fs) f) rest

abbrev pub is_lasting : Kind → Bool
is_lasting lasting = true
is_lasting _ = false

abbrev pub is_temporary : Kind → Bool
is_temporary temporary = true
is_temporary _ = false

abbrev pub is_timed_out : Kind → Bool
is_timed_out timed_out = true
is_timed_out _ = false

abbrev pub has : (Kind → Bool) → List Kind → Bool
has p [] = false
has p (k ∷ ks) = p k || has p ks

-- The class of failures over those that were noted before.
abbrev class_from : ResponseFailures → List Kind → FailureType
class_from f ks =
    if f.permanent || has is_lasting ks
    then non_timeout
    else if f.retryable || has is_temporary ks
    then retryable_response
    else (if f.timeout || has is_timed_out ks then timeout_only else non_timeout)

abbrev pub report_from : ResponseFailures → Outcome → Metadata
report_from f (ks, some (i, status)) = found i status
report_from f (ks, none) = metadata_failed (class_from f ks)

-- A lasting failure settles the class, then a temporary one, then a timeout; only missing metadata
-- count as no timeout.
abbrev pub report : Outcome → Metadata
report o = report_from no_failures o

abbrev noted : Kind → ResponseFailures → ResponseFailures
noted timed_out f = record f { timeout = true }
noted missing f = f
noted temporary f = record f { retryable = true }
noted lasting f = record f { permanent = true }

abbrev IsSettled : Pass → Type 0
IsSettled p =
    (p.failure_type ≡ non_timeout)
    ⊎ (p.failures.permanent || (p.failures.retryable || p.failures.timeout) ≡ true)

abbrev Agrees : ℕ → Bool → Fetch → ResponseFailures → Visit → Option Kind → Type 0
Agrees i more f r (goes_on q) (some k) =
    (asks_next more f ≡ true) × (q.failures ≡ noted k r) × IsSettled q
Agrees i more f r (ends (failed t)) (some k) =
    (asks_next more f ≡ false) × (with_discovery_failure_type t ≡ class_from r (k ∷ []))
Agrees i more f r (ends (selected j status)) none = choice i f ≡ some (j, status)
Agrees i more f r v o = ⊥

visit_body-Agrees :
    (i : ℕ) (more : Bool) (status : ℕ) (body : Body) (p : Pass)
    → Agrees i more
        (answered status body)
        p.failures
        (visit_body i more status body p)
        (kind_of more (answered status body))
unfolding visit_body record_failure classify classify_discovery_failure
visit_body-Agrees i more status (unread err) p = ground arith
visit_body-Agrees i more status oversized p = ground arith
visit_body-Agrees i more status empty p = ground arith
visit_body-Agrees i more status invalid p = ground arith
visit_body-Agrees i more status valid p = ground arith

visit-Agrees :
    (i : ℕ) (more : Bool) (f : Fetch) (p : Pass)
    → Agrees i more f p.failures (visit i more f p) (kind_of more f)
unfolding visit record_failure classify_discovery_failure
visit-Agrees i more (unbuilt err) p = ground arith
visit-Agrees i more (unanswered err) p = ground arith
visit-Agrees i more (answered status body) p = visit_body-Agrees i more status body p

report_from-add :
    (f : ResponseFailures) (k : Kind) (o : Outcome)
    → report_from (noted k f) o ≡ report_from f (add_kind k o)
report_from-add f k (ks, some (i, status)) = refl
report_from-add f timed_out (ks, none) = ground arith
report_from-add f missing (ks, none) = ground arith
report_from-add f temporary (ks, none) = ground arith
report_from-add f lasting (ks, none) = ground arith

-- The end of a pass after its last candidate.
settled_end :
    (p : Pass)
    → IsSettled p
    → with_discovery_failure_type (classify p.failure_type p.failures) ≡ class_from p.failures []
unfolding classify
settled_end p h = ground arith

next_lem :
    (i : ℕ) (more : Bool) (f : Fetch) (r : ResponseFailures) (next : Pass → PassResult)
    (rest : Outcome) (v : Visit) (o : Option Kind)
    → Agrees i more f r v o
    → ((q : Pass) → IsSettled q → ended (next q) ≡ report_from q.failures rest)
    → ended (visit_next next v) ≡ report_from r (outcome_at i f o (asks_next more f) rest)
next_lem i more f r next rest (goes_on q) none h k = elim h [ ]
next_lem i more f r next rest (goes_on q) (some kind) h k =
    k q h.2 ∙ rw (h.0, h.1) (report_from-add r kind rest)
next_lem i more f r next rest (ends (failed t)) none h k = elim h [ ]
next_lem i more f r next rest (ends (failed t)) (some kind) h k = rw (h.0, h.1) refl
next_lem i more f r next rest (ends (selected j status)) none h k = rw h refl
next_lem i more f r next rest (ends (selected j status)) (some kind) h k = elim h [ ]

settled_pass :
    (i : ℕ) (fs : List Fetch) (p : Pass)
    → IsSettled p
    → ended (run_pass i fs p) ≡ report_from p.failures (outcome i fs)
unfolding run_pass
settled_pass i [] p h = ap metadata_failed (settled_end p h)
settled_pass i (f ∷ fs) p h =
    next_lem i (is_more fs) f p.failures (run_pass (i + 1) fs) (outcome (i + 1) fs)
      (visit i (is_more fs) f p) (kind_of (is_more fs) f) (visit-Agrees i (is_more fs) f p)
      (λ q k. settled_pass (i + 1) fs q k)

-- A pass over candidates reports what an independent reading of their answers says: the first one
-- with valid metadata that is not passed over, or a failure whose class is settled by a lasting
-- failure, else by a temporary one, else by a timeout.
pub run_pass-report :
    (f : Fetch) (fs : List Fetch)
    → ended (run_pass 0 (f ∷ fs) start_pass) ≡ report (outcome 0 (f ∷ fs))
unfolding run_pass
run_pass-report f fs =
    next_lem 0 (is_more fs) f no_failures (run_pass (0 + 1) fs) (outcome (0 + 1) fs)
      (visit 0 (is_more fs) f start_pass) (kind_of (is_more fs) f)
      (visit-Agrees 0 (is_more fs) f start_pass) (λ q k. settled_pass (0 + 1) fs q k)
