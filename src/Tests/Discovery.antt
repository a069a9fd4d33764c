-- ===== src/Tests/Discovery.antt =====
-- The discovery of OAuth metadata at concrete answers.
use tunnel_client.Base.{ℕ, ◌≡◌, refl, ◌⊎◌, zero, suc, true, List, [], ◌∷◌, map}
use tunnel_client.ErrorView.{ErrorView, plain_error}
use tunnel_client.Discovery.{
  Fetch, unanswered, answered, valid, empty, Try, reply, error, Retried, tried, retried_fetch,
  found, ended, run_pass, start_pass, fetch_oauth_metadata,
}
use tunnel_client.Discovery.Policy.{report, outcome, run_pass-report}
use tunnel_client.Discovery.Passes.{IsOnlyTimeouts, fetch_oauth_metadata_passes}

abbrev late : ErrorView
late = record plain_error { is_deadline = true }

-- The second candidate has the metadata after a server error of the first.
abbrev after_error : List Fetch
after_error = answered 200 valid ∷ []

run_pass-report_example :
    ended (run_pass 0 (answered 503 empty ∷ after_error) start_pass)
    ≡ report (outcome 0 (answered 503 empty ∷ after_error))
run_pass-report_example = run_pass-report (answered 503 empty) after_error

abbrev second_try : ℕ → Try
second_try zero = error late
second_try (suc n) = reply 200 valid

abbrev missing : List Retried
missing = tried (λ n. reply 404 empty) ∷ []

retried_test :
    fetch_oauth_metadata (unanswered late ∷ answered 404 empty ∷ []) (tried second_try ∷ missing)
    ≡ found 0 200
unfolding fetch_oauth_metadata
retried_test = refl

fetch_oauth_metadata_passes_example :
    (IsOnlyTimeouts (outcome 0 (unanswered late ∷ answered 404 empty ∷ []))
      × (fetch_oauth_metadata
            (unanswered late ∷ answered 404 empty ∷ [])
            (tried second_try ∷ missing)
          ≡ report (outcome 0 (map retried_fetch (tried second_try ∷ missing)))))
    ⊎ (¬ (IsOnlyTimeouts (outcome 0 (unanswered late ∷ answered 404 empty ∷ [])))
        × (fetch_oauth_metadata
              (unanswered late ∷ answered 404 empty ∷ [])
              (tried second_try ∷ missing)
            ≡ report (outcome 0 (unanswered late ∷ answered 404 empty ∷ []))))
fetch_oauth_metadata_passes_example =
    fetch_oauth_metadata_passes (unanswered late) (answered 404 empty ∷ []) (tried second_try)
      missing
