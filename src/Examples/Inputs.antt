-- ===== src/Examples/Inputs.antt =====
-- Records and requests that the examples share.
use paste_thek4n_ru.Prelude.{true, false, []}
use paste_thek4n_ru.Prelude.Int.{pos}
use paste_thek4n_ru.Prelude.Bytes.{Bytes, codes}
use paste_thek4n_ru.Domain.Params.{CacheRequestParams}
use paste_thek4n_ru.Domain.Record.{Record}
use paste_thek4n_ru.Config.{hour}

-- A record that can be read twice, and never expires.
abbrev pub two_reads : Record
two_reads = record {
  key = [];
  expiration_date = record { date = pos 0; eternal = true };
  disposable_counter = record { value = 2; eternal = false };
  clicks = record { value = 0 };
  body = codes "hello";
  url = false;
}

abbrev pub address : Bytes
address = codes "192.0.2.1"

-- A request that anybody may make.
abbrev pub hour_long : CacheRequestParams
hour_long = record {
  apikey = [];
  requested_key = [];
  source_ip = address;
  body = codes "hello";
  ttl = pos hour;
  body_len = pos 5;
  requested_key_length = 14;
  disposable = 3;
  is_url = false;
}

-- A request for a key, which needs an API key.
abbrev pub with_key : CacheRequestParams
with_key = record hour_long { apikey = codes "secret"; requested_key = codes "notes" }

-- The same without the API key.
abbrev pub without_apikey : CacheRequestParams
without_apikey = record hour_long { requested_key = codes "notes" }
