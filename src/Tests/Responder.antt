-- ===== src/Tests/Responder.antt =====
-- A notification that meets a full service, then succeeds.
use tunnel_client.Base.{ℕ, suc, ◌≡◌, refl, true, false, some, arith, codes, length, second}
use tunnel_client.Channel.{jsonrpc_notification}
use tunnel_client.Health.Delivery.{new_delivery_health}
use tunnel_client.Responder.{answered, elapsed, Exchange, PostRequest, post_response}
use tunnel_client.Responder.Delivery.{IsPosted, post_response-IsPosted}
use tunnel_client.Responder.Accounting.{IsCounted, post_response-IsCounted}

abbrev exchange : ℕ → Exchange
exchange n = record {
  reply = elim n [ suc (suc m) ↦ answered 200 (0, false) | _ ↦ answered 429 (0, false) ];
  backoff_delay = second;
  wait_end = elapsed;
  now = 100;
}

abbrev request : PostRequest
request = record {
  request_id = codes "r1";
  response = some (record {
    payload = codes "{}";
    response_code = 200;
    response_type = jsonrpc_notification;
    channel = codes "main";
  });
  encodes = true;
  shard_token = some (codes "tok");
}

two_tries : length (post_response exchange 0 request 200 new_delivery_health).1.tries ≡ 2
unfolding post_response
two_tries = refl

post_response-IsPosted_example :
    let (result, q) = post_response exchange 0 request 200 new_delivery_health in
    IsPosted request 0 result q
post_response-IsPosted_example = post_response-IsPosted exchange 0 request 200 new_delivery_health

post_response-IsCounted_example :
    let (result, q) = post_response exchange 0 request 200 new_delivery_health in
    IsCounted new_delivery_health result q
post_response-IsCounted_example =
    post_response-IsCounted exchange 0 request 200 new_delivery_health (omega arith)
