-- ===== src/Examples/Setting.antt =====
-- The setup of the broker, the pool and the registration at concrete inputs.
use paota.Common.{some, ◌≡◌, refl, [], ◌∷◌, ◌++◌}
use paota.Schema.{confirm_timeout}
use paota.Provider.{amqp_publish_with_confirm}
use paota.Provider.Rotation.{publish_silent-published}
use paota.Examples.Publishing.{parcel}
use paota.Samples.{sample_amqp}
use paota.World.{Env, World, Outcome, err, silent, ◌>>=◌}
use paota.Provider.{get_connection_from_pool, create_amqp_channel}
use paota.Broker.{setup_exchange_queue_binding, declare_topology}
use paota.Broker.Topology.{topology, declared-setup_exchange_queue_binding}
use paota.Registrar.{func, register_tasks}
use paota.Registrar.Registration.{Registered, register_tasks-Registered}
use paota.Samples.{
  sample_env, sample_amqp_broker, sample_registrar, sample_world, failing, task_type,
}

declared-setup_exchange_queue_binding_example :
    (setup_exchange_queue_binding sample_env sample_amqp_broker sample_world).1.declared
    ≡ [] ++ topology sample_amqp_broker
unfolding setup_exchange_queue_binding ◌>>=◌ get_connection_from_pool create_amqp_channel
    declare_topology
declared-setup_exchange_queue_binding_example =
    declared-setup_exchange_queue_binding sample_env sample_amqp_broker sample_world refl

register_tasks-Registered_example :
    Registered sample_registrar
      (("Sum", func task_type failing) ∷ [])
      (register_tasks sample_registrar (("Sum", func task_type failing) ∷ [])).0
      (register_tasks sample_registrar (("Sum", func task_type failing) ∷ [])).1
register_tasks-Registered_example =
    register_tasks-Registered sample_registrar (("Sum", func task_type failing) ∷ [])

-- The server does not confirm.
abbrev silent_env : Env
silent_env = record sample_env { publish = λ i s. silent }

abbrev unheard : Outcome (Unit {0}) × World
unheard =
    amqp_publish_with_confirm silent_env (some sample_amqp) "failed_test" parcel.message
      "paota_task_exchange" sample_world

publish_silent-published_example :
    (unheard.0 ≡ err confirm_timeout)
    × (unheard.1.published
        ≡ []
          ++ record {
            exchange = "paota_task_exchange";
            routing_key = "failed_test";
            message = parcel.message;
          }
            ∷ [])
    × (unheard.1.sent ≡ [])
    × (unheard.1.pool ≡ some 901 ∷ [])
    × (unheard.1.closed ≡ 900 ∷ [])
publish_silent-published_example =
    publish_silent-published silent_env (some sample_amqp) "failed_test" parcel.message
      "paota_task_exchange" sample_world 900 (some 901 ∷ []) refl
      (record { stays_open = λ i. refl; channel = λ i. refl; confirms = λ i. refl }) (λ i s. refl)
