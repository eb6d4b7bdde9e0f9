-- ===== src/Schema.antt =====
-- schema/task.go, schema/errors/*.go and the Go values that the program inspects.
-- A `time.Time` is the number of nanoseconds since the Unix epoch, in UTC; the monotonic reading
-- that Go carries beside it is not modelled. Bytes are numbers below 256.
pub mod Times
use paota.Common.{ℕ, ◌^◌, String, Bool, false, Option, none, List, []}
use paota.Common.Int.{ℤ, pos}
use Prim.Native.String.{◌++◌ as str_append}

abbrev pub Bytes : Type 0
Bytes = List ℕ

abbrev pub Time : Type 0
Time = ℤ

-- `time.Duration`, an int64 of nanoseconds.
abbrev pub Duration : Type 0
Duration = ℤ

abbrev pub second : ℕ
second = 10 ^ 9

abbrev pub millisecond : ℕ
millisecond = 10 ^ 6

-- An `interface{}`: its dynamic type and its value. A float64 is given by its bit pattern.
pub data Value : Type 0 where
  nil : Value
  string : String → Value
  bool : Bool → Value
  int : ℤ → Value
  int32 : ℤ → Value
  int64 : ℤ → Value
  float64 : ℕ → Value
  other : ℕ → Value

pub record Arg : Type 0 where
  pub name : String
  pub type : String
  pub value : Value

pub record Signature : Type 0 where
  pub uuid : String
  pub name : String
  pub args : List Arg
  pub raw_args : Bytes
  pub routing_key : String
  pub priority : ℕ  -- uint8
  pub retry_count : ℤ
  pub retry_timeout : ℤ
  pub wait_time : ℤ
  pub retries_done : ℤ
  pub task_time_out : ℤ
  pub ignore_when_task_not_registered : Bool
  pub created_at : Option Time
  pub eta : Option Time

-- The `errors.New` values of schema/errors, and the errors that `fmt.Errorf` builds. `external`
-- is an error of a library, known by its text.
pub data Error : Type 0 where
  unsupported_broker empty_message : Error
  invalid_config nil_config : Error
  unsupported_store : Error
  task_must_be_func task_returns_no_value last_return_value_must_be_error : Error
  unsupported : Error
  external : String → Error
  task_not_registered : String → Error
  publish_message failed_to_publish json_marshal decode_signature : Error → Error
  consumer_cancelled : String → Error
  -- A nil `*amqp.Error` in an error interface, which is not nil.
  closed_gracefully : Error
  context_not_struct : Error
  confirm_channel_closed not_acked confirm_timeout : Error
  create_connection_pool refill_connection_pool recreate_connection : Error → Error

pub record State : Type 0 where
  pub request : Signature
  pub error : Option Error
  pub status : String
  pub response : List Value

abbrev with_status : String → Signature → State
with_status status task = record { request = task; error = none; status = status; response = [] }

unfoldable pub new_pending_task_state : Signature → State
new_pending_task_state = with_status "Pending"

unfoldable pub new_complete_task_state : Signature → State
new_complete_task_state = with_status "Complete"

unfoldable pub new_failed_task_state : Signature → State
new_failed_task_state = with_status "Failed"

unfoldable pub new_cancelled_task_state : Signature → State
new_cancelled_task_state = with_status "Cancelled"

-- `fmt.Sprintf("task_%v", id)`
abbrev pub task_id : String → String
task_id id = str_append "task_" id

unfoldable pub new_signature : String → String → List Arg → Signature
new_signature id name args = record {
  uuid = task_id id;
  name = name;
  args = args;
  raw_args = [];
  routing_key = "";
  priority = 0;
  retry_count = pos 0;
  retry_timeout = pos 0;
  wait_time = pos 0;
  retries_done = pos 0;
  task_time_out = pos 0;
  ignore_when_task_not_registered = false;
  created_at = none;
  eta = none;
}
