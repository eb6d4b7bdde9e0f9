-- ===== src/Registrar/RoundTrip.antt =====
-- A message with raw arguments carries its signature in the headers: what the consumer reads back.
use paota.Common.{
  ◌^◌, ◌≤◌, ◌<◌, String, ◌≡◌, refl, ap, ◌⊎◌, inl, inr, Bool, true, Option, none, some, [], ◌∷◌,
  ◌++◌,
}
use paota.Common.Int.{ℤ, pos_part, neg_part}
use paota.Schema.{Time, Signature, Value, string, bool, int, int32, int64}
use paota.Schema.Times.{unix, from_unix}
use paota.Config.{Table}
use paota.Utils.{Floats, get_int, get_string, get_bool, get_int64_ok, get_uint8}
use paota.Broker.{build_headers_from_signature, time_header}
use paota.Registrar.Headers.{header, unix_time, signature_from_amqp_headers_and_body}

pub record IsInt32 (i : ℤ) : Type 0 where
  pub above : pos_part i < 2 ^ 31
  pub below : neg_part i ≤ 2 ^ 31

-- What the AMQP client does to header values on their way: texts, truth values and int64 arrive as
-- they are, and an int that fits 32 bits arrives as an int32 or an int64.
pub record IsWire (wire : Value → Value) : Type 0 where
  pub strings : (s : String) → wire (string s) ≡ string s
  pub bools : (b : Bool) → wire (bool b) ≡ bool b
  pub longs : (i : ℤ) → wire (int64 i) ≡ int64 i
  pub ints : (i : ℤ) → IsInt32 i → (wire (int i) ≡ int32 i) ⊎ (wire (int i) ≡ int64 i)

abbrev pub carried : (Value → Value) → Table → Table
carried wire [] = []
carried wire ((k, v) ∷ rest) = (k, wire v) ∷ carried wire rest

-- The numbers of a signature fit 32 bits.
pub record IsSmall (s : Signature) : Type 0 where
  pub retry_count : IsInt32 s.retry_count
  pub retry_timeout : IsInt32 s.retry_timeout
  pub wait_time : IsInt32 s.wait_time
  pub retries_done : IsInt32 s.retries_done
  pub task_time_out : IsInt32 s.task_time_out

-- A time is carried in whole seconds.
abbrev pub whole_seconds : Option Time → Option Time
whole_seconds none = none
whole_seconds (some t) = some (from_unix (unix t))

module _ (fl : Floats) (wire : Value → Value) (w : IsWire wire) where
  get_int-wire : (i : ℤ) → IsInt32 i → get_int fl (wire (int i)) ≡ i
  unfolding get_int
  get_int-wire i h = elim (w.ints i h) [ inl e ↦ rw e | inr e ↦ rw e ]

  get_string-wire : (t : String) → get_string (wire (string t)) ≡ t
  unfolding get_string
  get_string-wire t = rw (w.strings t)

  get_bool-wire : (b : Bool) → get_bool (wire (bool b)) ≡ b
  unfolding get_bool
  get_bool-wire b = rw (w.bools b)

  get_int64_ok-wire : (i : ℤ) → get_int64_ok fl (wire (int64 i)) ≡ (i, true)
  unfolding get_int64_ok
  get_int64_ok-wire i = rw (w.longs i)

  abbrev times : Option Time → Option Time → Table
  times c e = carried wire (time_header "created_at" c ++ time_header "eta" e)

  read_created :
      (c e : Option Time)
      → unix_time (get_int64_ok fl (header "created_at" (times c e))) ≡ whole_seconds c
  unfolding header get_int64_ok
  read_created none none = refl
  read_created none (some e) = refl
  read_created (some c) none = ap unix_time (get_int64_ok-wire (unix c))
  read_created (some c) (some e) = ap unix_time (get_int64_ok-wire (unix c))

  read_eta :
      (c e : Option Time) → unix_time (get_int64_ok fl (header "eta" (times c e))) ≡ whole_seconds e
  unfolding header get_int64_ok
  read_eta none none = refl
  read_eta none (some e) = ap unix_time (get_int64_ok-wire (unix e))
  read_eta (some c) none = refl
  read_eta (some c) (some e) = ap unix_time (get_int64_ok-wire (unix e))

  read_routing_key : (c e : Option Time) → get_string (header "routing_key" (times c e)) ≡ ""
  unfolding header get_string
  read_routing_key none none = refl
  read_routing_key none (some e) = refl
  read_routing_key (some c) none = refl
  read_routing_key (some c) (some e) = refl

  read_priority : (c e : Option Time) → get_uint8 fl (header "priority" (times c e)) ≡ 0
  unfolding header get_uint8
  read_priority none none = refl
  read_priority none (some e) = refl
  read_priority (some c) none = refl
  read_priority (some c) (some e) = refl

  -- The signature that comes back differs from the one published in its arguments, its routing key
  -- and its priority, which are not carried and are empty, and in fractions of a second.
  pub signature_from-build_headers :
      (s : Signature)
      → IsSmall s
      → signature_from_amqp_headers_and_body fl
          (carried wire (build_headers_from_signature s))
          s.raw_args
        ≡ record s {
          args = [];
          routing_key = "";
          priority = 0;
          created_at = whole_seconds s.created_at;
          eta = whole_seconds s.eta;
        }
  unfolding signature_from_amqp_headers_and_body build_headers_from_signature header
  signature_from-build_headers s small = λ i. record {
    uuid = get_string-wire s.uuid i;
    name = get_string-wire s.name i;
    args = [];
    raw_args = s.raw_args;
    routing_key = read_routing_key s.created_at s.eta i;
    priority = read_priority s.created_at s.eta i;
    retry_count = get_int-wire s.retry_count small.retry_count i;
    retry_timeout = get_int-wire s.retry_timeout small.retry_timeout i;
    wait_time = get_int-wire s.wait_time small.wait_time i;
    retries_done = get_int-wire s.retries_done small.retries_done i;
    task_time_out = get_int-wire s.task_time_out small.task_time_out i;
    ignore_when_task_not_registered = get_bool-wire s.ignore_when_task_not_registered i;
    created_at = read_created s.created_at s.eta i;
    eta = read_eta s.created_at s.eta i;
  }
