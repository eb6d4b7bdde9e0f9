-- ===== src/Examples/Routing.antt =====
-- Forwarded messages and orders of a map at concrete inputs.
use paota.Common.{◌≡◌, String, List, refl, true, [], ◌∷◌, Bool-cases, inl, inr, str_eq, eq_iff}
use paota.World.{Declaration, ok, ◌>>=◌}
use paota.Provider.{get_connection_from_pool, create_amqp_channel}
use paota.Broker.{setup_exchange_queue_binding, declare_topology, is_direct_exchange}
use paota.Registrar.{Task, func, register_tasks, retry_task, lookup}
use paota.Registrar.Order.{SameMap, Alike, register_tasks-Alike}
use paota.Registrar.Routing.{Forwarded, retry_task-Forwarded}
use paota.Samples.{
  sample_size, sample_env, sample_amqp_broker, sample_registrar, sample_broker, sample_world,
  failing, task_type,
}
use paota.Examples.Publishing.{text-ne-nil}

abbrev two_tasks : List (String × Task)
two_tasks = ("Sum", func task_type failing) ∷ ("Mail", func task_type failing) ∷ []

abbrev two_turned : List (String × Task)
two_turned = ("Mail", func task_type failing) ∷ ("Sum", func task_type failing) ∷ []

same_entries : (k : String) → lookup k two_tasks ≡ lookup k two_turned
unfolding lookup
same_entries k = elim (Bool-cases (str_eq "Sum" k)) [
  | inl sum ↦ elim (Bool-cases (str_eq "Mail" k)) [
    | inl mail ↦ absurd (cc ((eq_iff "Sum" k).0 sum, (eq_iff "Mail" k).0 mail))
    | inr other ↦ rw (sum, other) refl
  ]
  | inr other ↦ rw other refl
]

two_tasks-SameMap : SameMap two_tasks two_turned
unfolding lookup
two_tasks-SameMap = record {
  left = (refl, (refl, tt));
  right = (refl, (refl, tt));
  entries = same_entries;
  size = refl;
}

register_tasks-Alike_example :
    Alike sample_registrar
      (register_tasks sample_registrar two_tasks)
      (register_tasks sample_registrar two_turned)
register_tasks-Alike_example =
    register_tasks-Alike sample_registrar two_tasks two_turned two_tasks-SameMap

sample-set_up : (setup_exchange_queue_binding sample_env sample_amqp_broker sample_world).0 ≡ ok tt
unfolding setup_exchange_queue_binding ◌>>=◌ get_connection_from_pool create_amqp_channel
    declare_topology
sample-set_up = refl

abbrev declarations : List Declaration
declarations = (setup_exchange_queue_binding sample_env sample_amqp_broker sample_world).1.declared

direct : is_direct_exchange sample_amqp_broker ≡ true
unfolding is_direct_exchange
direct = refl

retry_task-Forwarded_example :
    Forwarded declarations "paota_task_exchange" sample_world
      (retry_task sample_env sample_registrar sample_broker sample_world).1
retry_task-Forwarded_example =
    retry_task-Forwarded sample_env sample_amqp_broker sample_size sample_world sample-set_up direct
      (text-ne-nil "paota_task_binding_key" refl) sample_registrar refl sample_world
      (text-ne-nil "delay_test" refl) (inr (refl, refl))
