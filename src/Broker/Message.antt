-- ===== src/Broker/Message.antt =====
-- The body, the headers and the time to live of a published task.
use paota.Common.{
  String, Bool, true, false, ◌&&◌, not, Option, none, some, [], ◌∷◌, ◌++◌, ltb, ◌==◌, if◌then◌else◌,
}
use paota.Common.Int.{ℤ, pos, eqb_ℤ}
use paota.Schema.{Bytes, Time, Signature, string, bool, int, int64, json_marshal, external}
use paota.Schema.Times.{after, time_sub, to_milliseconds, unix}
use paota.Config.{Table}
use paota.World.{Env, Outcome, ok, err, Exec, pure, ◌>>=◌, next_call}

abbrev pub bytes_eq : Bytes → Bytes → Bool
bytes_eq [] [] = true
bytes_eq (x ∷ xs) (y ∷ ys) = x == y && bytes_eq xs ys
bytes_eq _ _ = false

-- The bytes of `null`.
abbrev pub null_bytes : Bytes
null_bytes = b'n' ∷ b'u' ∷ b'l' ∷ b'l' ∷ []

-- `len(signature.RawArgs) > 0 && string(signature.RawArgs) != "null"`
unfoldable pub has_raw_args : Bytes → Bool
has_raw_args [] = false
has_raw_args (x ∷ xs) = not (bytes_eq (x ∷ xs) null_bytes)

abbrev pub time_header : String → Option Time → Table
time_header key none = []
time_header key (some t) = (key, int64 (unix t)) ∷ []

unfoldable pub build_headers_from_signature : Signature → Table
build_headers_from_signature sig =
    ("uuid", string sig.uuid)
    ∷ ("task_name", string sig.name)
    ∷ ("retry_count", int sig.retry_count)
    ∷ ("retry_timeout", int sig.retry_timeout)
    ∷ ("timeout", int sig.task_time_out)
    ∷ ("wait_time", int sig.wait_time)
    ∷ ("retries_done", int sig.retries_done)
    ∷ ("ignore_if_unregistered", bool sig.ignore_when_task_not_registered)
    ∷ (time_header "created_at" sig.created_at ++ time_header "eta" sig.eta)

abbrev marshalled : Option Bytes → Outcome (Bytes × Table)
marshalled none = err (json_marshal (external "json.Marshal"))
marshalled (some body) = ok (body, [])

abbrev pub is_some {ℓ} : {A : Type ℓ} → Option A → Bool
is_some none = false
is_some (some _) = true

-- `task.Priority > 1 && task.TaskTimeOut != 0 && task.CreatedAt != nil`
abbrev pub is_hurried : Signature → Bool
is_hurried task =
    ltb 1 task.priority && not (eqb_ℤ task.task_time_out (pos 0)) && is_some task.created_at

module _ (env : Env) where
  unfoldable pub prepare_message_body_and_headers : Signature → Outcome (Bytes × Table)
  prepare_message_body_and_headers sig =
      if has_raw_args sig.raw_args
      then ok (sig.raw_args, build_headers_from_signature sig)
      else marshalled (env.marshal sig)

  abbrev until : Time → Exec ℤ
  until eta = do
    i ← next_call
    pure (if after eta (env.now i) then to_milliseconds (time_sub eta (env.now i)) else pos 0)

  -- In milliseconds.
  unfoldable pub get_task_ttl : Signature → Exec ℤ
  unfolding to_milliseconds time_sub
  get_task_ttl task = elim task.eta [
    | none ↦ pure (pos 0)
    | some eta ↦ if is_hurried task then pure (pos 5) else until eta
  ]
