-- ===== src/Discovery/Passes.antt =====
-- The two passes together.
use tunnel_client.Base.{
  ◌≡◌, refl, Bool, true, false, none, some, List, ◌∷◌, arith, map, ◌↔◌, ◌⊎◌, inl, inr, Bool-cases,
}
use tunnel_client.Discovery.{
  not_applicable, timeout_only, non_timeout, retryable_response, Fetch, PassResult, selected,
  failed, start_pass, run_pass, Metadata, metadata_failed, ended, Retried, retried_fetch,
  retries_after, fetch_oauth_metadata, is_timeout_type,
}
use tunnel_client.Discovery.Policy.{
  outcome, Outcome, report, has, is_lasting, is_temporary, is_timed_out, run_pass-report,
}

-- A pass in which something timed out, and otherwise only metadata were missing.
abbrev pub IsOnlyTimeouts : Outcome → Type 0
IsOnlyTimeouts (ks, some chosen) = ⊥
IsOnlyTimeouts (ks, none) =
    (has is_lasting ks ≡ false) × (has is_temporary ks ≡ false) × (has is_timed_out ks ≡ true)

abbrev is_timeout : Metadata → Bool
is_timeout (metadata_failed t) = is_timeout_type t
is_timeout _ = false

retries_after_lem : (r : PassResult) → retries_after r ≡ is_timeout (ended r)
retries_after_lem (selected i status) = refl
retries_after_lem (failed not_applicable) = refl
retries_after_lem (failed timeout_only) = refl
retries_after_lem (failed non_timeout) = refl
retries_after_lem (failed retryable_response) = refl

is_timeout_iff : (o : Outcome) → (is_timeout (report o) ≡ true) ↔ IsOnlyTimeouts o
is_timeout_iff (ks, some (i, status)) = ground arith
is_timeout_iff (ks, none) = ground arith

retries_iff :
    (f : Fetch) (fs : List Fetch)
    → (retries_after (run_pass 0 (f ∷ fs) start_pass) ≡ true) ↔ IsOnlyTimeouts (outcome 0 (f ∷ fs))
retries_iff f fs =
    rw (retries_after_lem (run_pass 0 (f ∷ fs) start_pass), run_pass-report f fs)
      (is_timeout_iff (outcome 0 (f ∷ fs)))

-- The candidates are asked a second time, with retries, if at least one timed out in the first
-- pass, none was chosen, and no other failure than missing metadata was seen; the second pass
-- then decides. Otherwise the first pass decides.
pub fetch_oauth_metadata_passes :
    (f : Fetch) (fs : List Fetch) (r : Retried) (rs : List Retried)
    → (IsOnlyTimeouts (outcome 0 (f ∷ fs))
        × (fetch_oauth_metadata (f ∷ fs) (r ∷ rs)
            ≡ report (outcome 0 (map retried_fetch (r ∷ rs)))))
      ⊎ (¬ (IsOnlyTimeouts (outcome 0 (f ∷ fs)))
          × (fetch_oauth_metadata (f ∷ fs) (r ∷ rs) ≡ report (outcome 0 (f ∷ fs))))
unfolding fetch_oauth_metadata
fetch_oauth_metadata_passes f fs r rs =
    elim (Bool-cases (retries_after (run_pass 0 (f ∷ fs) start_pass))) [
      | inl e ↦
          inl (
            (retries_iff f fs).0 e,
            rw e (run_pass-report (retried_fetch r) (map retried_fetch rs)),
          )
      | inr e ↦ inr ((λ h. cc ((retries_iff f fs).1 h)), rw e (run_pass-report f fs))
    ]
