-- ===== src/Registrar/Headers.antt =====
-- `SignatureFromAmqpHeadersAndBody` and `BytesToSignature`: the signature of a delivery.
use paota.Common.{String, Bool, true, false, Option, none, some, [], ◌∷◌, str_eq, if◌then◌else◌}
use paota.Common.Int.{ℤ}
use paota.Schema.{Bytes, Time, Signature, Value, nil, decode_signature, external}
use paota.Schema.Times.{from_unix}
use paota.Config.{Table}
use paota.Utils.{Floats, get_string, get_int, get_uint8, get_bool, get_int64_ok}
use paota.World.{Env, Outcome, ok, err}

-- `headers[key]`, nil where the key is missing.
unfoldable pub header : String → Table → Value
header key [] = nil
header key ((k, v) ∷ rest) = if str_eq k key then v else header key rest

-- `_, ok := headers[key]`
unfoldable pub has_header : String → Table → Bool
has_header key [] = false
has_header key ((k, v) ∷ rest) = if str_eq k key then true else has_header key rest

abbrev pub unix_time : ℤ × Bool → Option Time
unix_time (s, true) = some (from_unix s)
unix_time (s, false) = none

unfoldable pub signature_from_amqp_headers_and_body : Floats → Table → Bytes → Signature
signature_from_amqp_headers_and_body fl headers body = record {
  uuid = get_string (header "uuid" headers);
  name = get_string (header "task_name" headers);
  args = [];
  raw_args = body;
  routing_key = get_string (header "routing_key" headers);
  priority = get_uint8 fl (header "priority" headers);
  retry_count = get_int fl (header "retry_count" headers);
  retry_timeout = get_int fl (header "retry_timeout" headers);
  wait_time = get_int fl (header "wait_time" headers);
  retries_done = get_int fl (header "retries_done" headers);
  task_time_out = get_int fl (header "timeout" headers);
  ignore_when_task_not_registered = get_bool (header "ignore_if_unregistered" headers);
  created_at = unix_time (get_int64_ok fl (header "created_at" headers));
  eta = unix_time (get_int64_ok fl (header "eta" headers));
}

unfoldable pub bytes_to_signature : Env → Bytes → Outcome Signature
bytes_to_signature env body = elim (env.unmarshal body) [
  | none ↦ err (decode_signature (external "json"))
  | some s ↦ ok s
]
