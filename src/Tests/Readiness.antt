-- ===== src/Tests/Readiness.antt =====
-- Readiness at concrete results.
use tunnel_client.Base.{
  ◌≡◌, ◌↔◌, refl, Bool, true, false, Option, none, some, List, [], ◌∷◌, codes, Bytes, All,
}
use tunnel_client.Readiness.{ProbeError, Discovery, readiness_status}
use tunnel_client.Readiness.Rule.{
  IsOpen, IsDiscovered, IsProbed, readiness_status_iff, record_all, readiness_status_stays,
}

abbrev gates : List (Option (Bool × Bytes))
gates = none ∷ some (true, []) ∷ []

-- The only attempt found nothing.
abbrev no_metadata : Discovery
no_metadata = record {
  attempts = some (record { tried = true; selected = false; status_code = 404 } ∷ []);
  error = some (codes "not found");
  probe_url = none;
}

abbrev failure : Discovery
failure = record { attempts = none; error = some (codes "refused"); probe_url = none }

abbrev needs_auth : ProbeError
needs_auth = record {
  message = codes "401";
  is_auth_required = true;
  is_startup_wait_timeout = false;
  is_timeout = false;
}

readiness_status_iff_example :
    ((readiness_status gates (some (some no_metadata)) (some none)).0 ≡ 200)
    ↔ (All IsOpen gates × IsDiscovered (some (some no_metadata)) × IsProbed (some none))
readiness_status_iff_example = readiness_status_iff gates (some (some no_metadata)) (some none)

readiness_status_stays_example :
    (readiness_status gates
      (record_all (failure ∷ []) (some (some no_metadata)))
      (record_all (none ∷ []) (some (some (some needs_auth))))).0
    ≡ 200
unfolding readiness_status
readiness_status_stays_example =
    readiness_status_stays gates (some (some no_metadata)) (some (some (some needs_auth)))
      (failure ∷ []) (none ∷ []) refl
