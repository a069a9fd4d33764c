-- ===== src/ErrorView.antt =====
-- What the code asks of a Go error, through `errors.Is` and `errors.As`, and the category that
-- pkg/controlplane/internal/health.go derives from it.
use tunnel_client.Base.{ℕ, Bool, true, false, Option, none, some, Bytes, codes}

-- The answers of an error's chain: the status of an `APIStatusError`, whether it is a deadline
-- or a cancellation, and for a network error whether it is a timeout.
pub record ErrorView : Type 0 where
  pub api_status : Option ℕ
  pub is_deadline : Bool
  pub is_canceled : Bool
  pub network_timeout : Option Bool

-- An error made by `errors.New`.
abbrev pub plain_error : ErrorView
plain_error = record {
  api_status = none;
  is_deadline = false;
  is_canceled = false;
  network_timeout = none;
}

abbrev network_category : Option Bool → Bytes × ℕ
network_category (some true) = (codes "timeout", 0)
network_category (some false) = (codes "network_error", 0)
network_category none = (codes "request_error", 0)

failure_of : Option ℕ → Bool → Bool → Option Bool → Bytes × ℕ
failure_of (some status) deadline canceled network = (codes "http_error", status)
failure_of none true canceled network = (codes "timeout", 0)
failure_of none false true network = (codes "canceled", 0)
failure_of none false false network = network_category network

unfoldable pub health_failure : ErrorView → Bytes × ℕ
unfolding failure_of
health_failure e = failure_of e.api_status e.is_deadline e.is_canceled e.network_timeout
