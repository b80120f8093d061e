-- ===== src/Ingestion/Tests.antt =====
-- Tests of the consumer, and the results at concrete inputs.
use lzd.Common.{◌≡◌, refl, Bool, true, false, List, [], ◌∷◌, none, some, String}
use lzd.Common.Outcome.{Outcome, ok, err, value_error}
use lzd.Features.Tests.{log_redis, ttls}
use lzd.Features.Window.{rt_bucket_start, rt_cutoff}
use lzd.Ingestion.Consumer.{
  at, Payload, validate_event, valid, bad_user_id, Lateness, Db, update_realtime, counters_of,
}
use lzd.Ingestion.Consumer.Flush.{Consumer, flush, Flushed, flush-commits_last, no_rows}

abbrev order_event : Payload
order_event = record {
  event_id = some "e1";
  user_id = some "U1";
  event_type = some "order";
  event_ts = some (at 43_230);
  session_id = none;
  price = some (some 20);
  quantity = some (some 3);
}

abbrev future_event : Payload
future_event = record order_event { event_id = some "e2"; event_ts = some (at 99_999) }

abbrev anyone : String → Bool
anyone u = true

order_counters :
    counters_of order_event ≡ ok (("rt_events_1h", 1) ∷ ("rt_order_1h", 1) ∷ ("rt_gmv_1h", 60) ∷ [])
unfolding counters_of
order_counters = refl

wrong_user : validate_event (λ u. false) order_event ≡ bad_user_id
unfolding validate_event
wrong_user = refl

abbrev lateness : Lateness
lateness = record {
  realtime_future_skew_seconds = 60;
  realtime_allowed_lateness_seconds = 600;
  ttls = ttls;
}

abbrev empty_db : Db log_redis
empty_db = ([], λ user. [])

abbrev batch : List Payload
batch = order_event ∷ future_event ∷ []

-- An order of the price "abc" passes the validation and cannot be applied.
abbrev poison_event : Payload
poison_event = record order_event { price = some none }

poison_valid : validate_event anyone poison_event ≡ valid
unfolding validate_event
poison_valid = refl

poison_raises :
    update_realtime log_redis lateness 43_260
      (poison_event ∷ [])
      (empty_db, no_rows log_redis (List Payload))
    ≡ err value_error
unfolding rt_bucket_start rt_cutoff update_realtime
poison_raises = refl

abbrev consumer : Consumer log_redis (List Payload)
consumer = record { buffer = order_event ∷ []; lake = []; db = empty_db; committed = 0 }

abbrev land : List Payload → List Payload → Outcome (Unit {0}) × List Payload
land rows lake = (ok tt, rows)

flush-commits_last_example :
    Flushed log_redis
      (List Payload)
      land
      lateness
      43_260
      consumer
      (flush log_redis (List Payload) land (ok tt) lateness 43_260 consumer)
flush-commits_last_example =
    flush-commits_last log_redis (List Payload) land (ok tt) lateness 43_260 consumer
