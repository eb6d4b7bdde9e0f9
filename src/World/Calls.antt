-- ===== src/World/Calls.antt =====
-- The state, the outside, and the monad.
use paota.Common.{ℕ, ◌+◌, String, Bool, Option, none, some, List}
use paota.Common.Int.{ℤ}
use paota.Schema.{Bytes, Time, Duration, Signature, Error}
use paota.Config.{Table}
use paota.Utils.{Floats}

-- `amqp.Publishing`, the fields that the program sets. `expiration` is none for "", and else the
-- number of milliseconds that is printed there.
pub record Publishing : Type 0 where
  pub content_type : String
  pub priority : ℕ
  pub body : Bytes
  pub delivery_mode : ℕ
  pub headers : Table
  pub expiration : Option ℤ

-- A publish that the server has confirmed.
pub record Sent : Type 0 where
  pub exchange : String
  pub routing_key : String
  pub message : Publishing

-- Calls of `Ack` and `Nack` on the delivery that is being handled, with their flags.
pub data Settlement : Type 0 where
  ack : Bool → Settlement
  nack : Bool → Bool → Settlement

-- What is asked of the server on a channel, in order.
pub data Declaration : Type 0 where
  exchange_declare : String → String → Declaration
  queue_declare : String → Table → Declaration
  queue_bind : String → String → String → Declaration
  set_qos : ℤ → Declaration

-- How a publish with confirms can end: the client's error, a closed confirm channel, a negative or
-- a positive confirm, or none within five seconds.
pub data PublishReply : Type 0 where
  rejected : Error → PublishReply
  confirm_closed not_confirmed confirmed silent : PublishReply

-- The parameters of `amqp.DialConfig`.
pub record Dial : Type 0 where
  pub url : String
  pub heartbeat : Duration
  pub locale : String
  pub timeout : Duration

-- Each answer depends on the number of the call. A connection is known by the number of the call
-- that opened it, as Go's pointers are distinct.
pub record Env : Type 0 where
  pub now : ℕ → Time
  pub new_uuid : ℕ → String
  pub marshal : Signature → Option Bytes
  pub unmarshal : Bytes → Option Signature
  pub dial : ℕ → Dial → Option Error
  pub is_closed : ℕ → ℕ → Bool
  pub open_channel : ℕ → ℕ → Option Error
  pub confirm_select : ℕ → Option Error
  pub declare : ℕ → Declaration → Option Error
  pub consume : ℕ → String → String → Option Error
  pub publish : ℕ → Sent → PublishReply
  pub publish_unconfirmed : ℕ → Sent → Option Error
  pub settle : ℕ → Settlement → Option Error
  pub floats : Floats

-- `signature` is the pointee of the `*schema.Signature` that is passed around; `pool` is
-- `ConnectionPool`, whose entries are pointers; `watched` are the connections whose close
-- notification a goroutine waits for; `closed` those that the program has closed; `channels` counts
-- the channels that are open.
pub record World : Type 0 where
  pub calls : ℕ
  pub signature : Signature
  pub settled : List Settlement
  pub sent : List Sent
  pub published : List Sent
  pub declared : List Declaration
  pub pool : List (Option ℕ)
  pub watched : List ℕ
  pub closed : List ℕ
  pub channels : ℕ

pub data Outcome (A : Type 0) : Type 0 where
  ok : A → Outcome A
  err : Error → Outcome A
  panic : Outcome A

abbrev pub Exec : Type 0 → Type 0
Exec A = World → Outcome A × World

module _ {A : Type 0} where
  unfoldable pub pure : A → Exec A
  pure a w = (ok a, w)

  unfoldable pub raise : Error → Exec A
  raise e w = (err e, w)

  unfoldable pub lift : Outcome A → Exec A
  lift r w = (r, w)

  unfoldable pub gets : (World → A) → Exec A
  gets f w = (ok (f w), w)

unfoldable pub die : {A : Type 0} → Exec A
die w = (panic, w)

unfoldable pub modify : (World → World) → Exec (Unit {0})
modify f w = (ok tt, f w)

unfoldable pub modify_signature : (Signature → Signature) → Exec (Unit {0})
modify_signature f w = (ok tt, record w { signature = f w.signature })

-- The number of the next call to the outside.
unfoldable pub next_call : Exec ℕ
next_call w = (ok w.calls, record w { calls = w.calls + 1 })

unfoldable pub fail_if : Option Error → Exec (Unit {0})
unfolding pure raise
fail_if none = pure tt
fail_if (some e) = raise e

-- `if err := m; err != nil { … }`: the error as a value. A panic goes on.
abbrev pub caught : {A : Type 0} → Outcome A → (Error → Exec A) → Exec A
caught (ok a) h w = (ok a, w)
caught (err e) h w = h e w
caught panic h w = (panic, w)

unfoldable pub on_error : {A : Type 0} → Exec A → (Error → Exec A) → Exec A
on_error m h w = let (r, w') = m w in caught r h w'

-- `_ = m`
unfoldable pub ignore : Exec (Unit {0}) → Exec (Unit {0})
unfolding on_error pure
ignore m = on_error m (λ _. pure tt)

-- `err := m`
abbrev pub attempted : Outcome (Unit {0}) → World → Outcome (Option Error) × World
attempted (ok _) w = (ok none, w)
attempted (err e) w = (ok (some e), w)
attempted panic w = (panic, w)

unfoldable pub attempt : Exec (Unit {0}) → Exec (Option Error)
attempt m w = let (r, w') = m w in attempted r w'

-- `defer f` around the rest of a function, `m`: it runs however the rest ends.
unfoldable pub deferring : {A : Type 0} → Exec (Unit {0}) → Exec A → Exec A
deferring f m w = let (r, w') = m w in (r, (f w').1)

-- A deferred `recover()`.
abbrev pub recovered : {A : Type 0} → Outcome A → Exec A → Exec A
recovered panic h w = h w
recovered (ok a) h w = (ok a, w)
recovered (err e) h w = (err e, w)

unfoldable pub recovering : {A : Type 0} → Exec A → Exec A → Exec A
recovering h m w = let (r, w') = m w in recovered r h w'

abbrev pub continue : {A B : Type 0} → Outcome A → (A → Exec B) → Exec B
continue (ok a) f w = f a w
continue (err e) f w = (err e, w)
continue panic f w = (panic, w)

infixl 5 ◌>>=◌ ◌>>◌
-- To open this is to open the other actions too.
unfoldable pub ◌>>=◌ : {A B : Type 0} → Exec A → (A → Exec B) → Exec B
unfolding pure raise lift gets die modify modify_signature next_call fail_if ignore attempt
    deferring recovering
◌>>=◌ m f w = let (r, w') = m w in continue r f w'

abbrev pub ◌>>◌ : {A B : Type 0} → Exec A → Exec B → Exec B
m >> k = m >>= λ _. k
