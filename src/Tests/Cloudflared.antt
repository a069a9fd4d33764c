-- ===== src/Tests/Cloudflared.antt =====
-- The cloudflared companion at concrete environments and runs.
use tunnel_client.Base.{◌≡◌, refl, true, false, none, some, List, [], ◌∷◌, Bytes, codes}
use tunnel_client.Cloudflared.{
  cloudflared_environment, runtime_token, token_failed, not_provisioned, fetch_failed,
}
use tunnel_client.Cloudflared.Environment.{
  values_of, expected_values, values_of-cloudflared_environment,
}
use tunnel_client.Cloudflared.Supervisor.{
  Action, launched, started_ready, probe_failed, stop_requested, waited_for, published_end,
  received, run, step, has_exited,
}
use tunnel_client.Cloudflared.Supervisor.Lifetime.{
  new_supervisor, IsHonest, run-IsHonest, run-stop_requested,
}

abbrev parent_environment : List Bytes
parent_environment =
    codes "PATH=/bin" ∷ codes "tunnel_token=old" ∷ codes "COPY=secret" ∷ codes "HOME=/root" ∷ []

environment_test :
    cloudflared_environment parent_environment (codes "secret")
    ≡ codes "PATH=/bin"
      ∷ codes "HOME=/root"
      ∷ codes "TUNNEL_TOKEN=secret"
      ∷ codes "TUNNEL_MANAGEMENT_DIAGNOSTICS=false"
      ∷ []
unfolding cloudflared_environment
environment_test = refl

missing_tunnel :
    runtime_token [] true (some (fetch_failed (some 404))) ≡ token_failed not_provisioned
unfolding runtime_token
missing_tunnel = refl

values_of-cloudflared_environment_example :
    values_of (codes "Tunnel_Token") (cloudflared_environment parent_environment (codes "secret"))
    ≡ expected_values parent_environment (codes "secret") (codes "Tunnel_Token")
values_of-cloudflared_environment_example =
    values_of-cloudflared_environment parent_environment (codes "secret") (codes "Tunnel_Token")

abbrev crash : List Action
crash =
    launched
    ∷ started_ready 5
    ∷ probe_failed 6 true
    ∷ waited_for (some (codes "signal: killed"))
    ∷ published_end 8
    ∷ []

crash_reported :
    (run crash (new_supervisor true)).failures
    ≡ some (codes "cloudflared process exited: signal: killed")
unfolding run step
crash_reported = refl

run-IsHonest_example : IsHonest (run crash (new_supervisor true))
run-IsHonest_example = run-IsHonest crash

abbrev startup : List Action
startup = launched ∷ started_ready 5 ∷ []

abbrev shutdown : List Action
shutdown = waited_for none ∷ published_end 9 ∷ received ∷ []

still_running : has_exited (run startup (new_supervisor true)).child ≡ false
unfolding run step
still_running = refl

run-stop_requested_example :
    (run shutdown (step stop_requested (run startup (new_supervisor true)))).sent ≡ 0
run-stop_requested_example = run-stop_requested true startup shutdown still_running
