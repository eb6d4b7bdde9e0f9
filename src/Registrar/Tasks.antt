-- ===== src/Registrar/Tasks.antt =====
-- Tasks as values of `interface{}`, their validation by reflection, and the table of them.
use paota.Common.{
  ℕ, ◌+◌, ◌%◌, ◌^◌, String, Bool, true, false, Option, none, some, List, [], ◌∷◌, str_eq,
  if◌then◌else◌,
}
use paota.Common.Int.{ℤ}
use paota.Schema.{
  Signature, Error, task_must_be_func, task_returns_no_value, last_return_value_must_be_error,
  task_not_registered,
}
use paota.Config.{Config, AmqpConfig}
use paota.World.{Outcome, ok, err, panic}

-- The types that a task's signature is told apart by: `*schema.Signature`, `error`, another type
-- that implements `error`, and any other.
pub data TypeName : Type 0 where
  signature_pointer error_interface : TypeName
  implements_error plain : ℕ → TypeName

-- `named`: a type declared with a name, which is not its underlying type.
pub record FuncType : Type 0 where
  pub ins : List TypeName
  pub outs : List TypeName
  pub variadic : Bool
  pub named : Bool

-- How a call ends: with a result, with a panic, not at all, or in one of these ways after some seconds.
pub data Finish : Type 0 where
  returned : Option Error → Finish
  panicked running : Finish
  takes : ℤ → Finish → Finish

-- A call also leaves the signature that it was given as a pointer in some state.
abbrev pub TaskFunc : Type 0
TaskFunc = Signature → Finish × Signature

pub data Task : Type 0 where
  nil_interface : Task
  not_func : ℕ → Task
  func : FuncType → TaskFunc → Task

abbrev pub implements : TypeName → Bool
implements error_interface = true
implements (implements_error _) = true
implements _ = false

-- `t.Out(t.NumOut() - 1)`
abbrev pub last_type : TypeName → List TypeName → TypeName
last_type t [] = t
last_type t (u ∷ us) = last_type u us

abbrev pub validate_outs : List TypeName → Outcome (Unit {0})
validate_outs [] = err task_returns_no_value
validate_outs (t ∷ ts) =
    if implements (last_type t ts) then ok tt else err last_return_value_must_be_error

-- `reflect.ValueOf(nil).Type()` panics.
unfoldable pub validate_task : Task → Outcome (Unit {0})
validate_task nil_interface = panic
validate_task (not_func _) = err task_must_be_func
validate_task (func t f) = validate_outs t.outs

-- `amqp` is the pointee of `GetConfig().AMQP`.
pub record Registrar : Type 0 where
  pub registered_tasks : List (String × Task)
  pub registered_tasks_count : ℕ
  pub config : Config
  pub amqp : AmqpConfig

unfoldable pub new_default_task_registrar : Config → AmqpConfig → Registrar
new_default_task_registrar config amqp = record {
  registered_tasks = [];
  registered_tasks_count = 0;
  config = config;
  amqp = amqp;
}

-- `sync.Map`: the newest entry of a key counts.
unfoldable pub lookup : String → List (String × Task) → Option Task
lookup k [] = none
lookup k ((j, t) ∷ m) = if str_eq j k then some t else lookup k m

-- `Store`
unfoldable pub insert : String → Task → List (String × Task) → List (String × Task)
insert k t [] = (k, t) ∷ []
insert k t ((j, u) ∷ m) = if str_eq j k then (k, t) ∷ m else (j, u) ∷ insert k t m

-- A Go map is its entries, in the order in which the loop meets them.
unfoldable pub validate_all : List (String × Task) → Outcome (Unit {0})
unfolding validate_task
validate_all [] = ok tt
validate_all ((k, t) ∷ rest) =
    let later = validate_all rest in
    elim (validate_task t) [ ok _ ↦ later | err e ↦ err e | panic ↦ panic ]

unfoldable pub store_all : List (String × Task) → Registrar → Registrar
unfolding insert
store_all [] r = r
store_all ((k, t) ∷ rest) r = store_all rest (record r {
  registered_tasks_count = (r.registered_tasks_count + 1) % 2 ^ 64;
  registered_tasks = insert k t r.registered_tasks;
})

unfoldable pub register_tasks : Registrar → List (String × Task) → Outcome (Unit {0}) × Registrar
unfolding validate_all store_all
register_tasks r tasks = elim (validate_all tasks) [
  | ok _ ↦ (ok tt, store_all tasks r)
  | err e ↦ (err e, r)
  | panic ↦ (panic, r)
]

abbrev pub found {ℓ} : {A : Type ℓ} → Option A → Bool
found none = false
found (some _) = true

unfoldable pub is_task_registered : Registrar → String → Bool
unfolding lookup
is_task_registered r name = found (lookup name r.registered_tasks)

unfoldable pub get_registered_task : Registrar → String → Outcome Task
unfolding lookup
get_registered_task r name = elim (lookup name r.registered_tasks) [
  | none ↦ err (task_not_registered name)
  | some t ↦ ok t
]

abbrev pub get_registered_task_count : Registrar → ℕ
get_registered_task_count r = r.registered_tasks_count
