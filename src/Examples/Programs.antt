-- ===== src/Examples/Programs.antt =====
-- The programs of the repository at concrete inputs.
use paota.Common.{suc, ◌+◌, ◌≡◌, ◌≢◌, refl, [], ◌∷◌, length}
use paota.Registrar.{Registrar}
use paota.Programs.Consumer.{tasks}
use paota.Programs.Publisher.{print_job, send, raise_time_out, sends, publish_all}
use paota.Programs.SameId.{publish_all-same_id}
use paota.Samples.{sample_env, sample_registrar, world_with}
use paota.Examples.Failing.{post_office}

publish_all-same_id_example :
    let w = world_with (print_job (b'7' ∷ [])) in
    let first = (publish_all sample_env post_office (send ∷ []) w).1 in
    let last =
      (publish_all sample_env post_office (send ∷ send ∷ raise_time_out ∷ send ∷ []) w).1 in
    (first.signature.uuid ≢ "")
    × (last.signature.uuid ≡ first.signature.uuid)
    × (length last.sent ≡ length w.sent + suc (sends (send ∷ raise_time_out ∷ send ∷ [])))
publish_all-same_id_example =
    publish_all-same_id sample_env post_office (λ w. refl) (send ∷ raise_time_out ∷ send ∷ [])
      (world_with (print_job (b'7' ∷ []))) refl

abbrev print_registrar : Registrar
print_registrar = record sample_registrar { registered_tasks = tasks }
