-- ===== src/Config/Reading.antt =====
-- A configuration that has been set or read from the environment, as the provider gives it.
use paota.Common.{
  ap, Bool-cases, if◌then◌else◌, ◌≡◌, ◌≢◌, refl, ◌⊎◌, inl, inr, Option-cases, false, Option, none,
  some, arith, eq_iff,
}
use paota.Common.Int.{pos, eqb_ℤ}
use paota.Schema.{Error}
use paota.Config.{
  Config, ConfigProvider, set_application_config, validate_config, default_duration, get_config,
  is_empty, read_from_env,
}

named-ne-empty : (c : Config) → c.broker ≢ "" → is_empty c ≡ false
unfolding is_empty
named-ne-empty c h = ground (arith, eq_iff c.broker "")

module _ (validate_struct : Config → Option Error) where
  named_kept : (c : Config) → c.broker ≢ "" → (default_duration validate_struct c).broker ≢ ""
  named_kept c h = ground arith

  default_lem :
      (c : Config)
      → default_duration validate_struct c ≡ record c {
        max_task_execution_duration =
            if eqb_ℤ c.max_task_execution_duration (pos 0)
            then pos 10
            else c.max_task_execution_duration;
      }
  default_lem c = elim (Bool-cases (eqb_ℤ c.max_task_execution_duration (pos 0))) [
    | inl missing ↦ rw missing refl
    | inr set ↦ rw set refl
  ]

  -- If the validator lets no configuration without a broker pass, then either a configuration is
  -- refused with the validator's error and the old one stays, or it is what the provider gives from
  -- then on, with ten seconds for a missing duration.
  pub get_config-set_application_config :
      ((c : Config) → validate_struct c ≡ none → c.broker ≢ "")
      → (cp : ConfigProvider) (config : Config)
      → ((e : Error) × (validate_struct config ≡ some e)
          × (set_application_config validate_struct cp config ≡ (cp, some e)))
        ⊎ (((set_application_config validate_struct cp config).1 ≡ none)
            × (get_config (set_application_config validate_struct cp config).0
                ≡ some (record config {
                  max_task_execution_duration =
                      if eqb_ℤ config.max_task_execution_duration (pos 0)
                      then pos 10
                      else config.max_task_execution_duration;
                })))
  unfolding set_application_config validate_config get_config
  get_config-set_application_config required cp config =
      elim (Option-cases (validate_struct config)) [
        | inl fine ↦ inr (
          rw (set_application_config, fine) refl,
          rw
              (
                set_application_config,
                fine,
                named-ne-empty (default_duration validate_struct config)
                    (named_kept config (required config fine)),
              )
              (ap some (default_lem config)),
        )
        | inr (e, wrong) ↦ inl (e, wrong, rw (set_application_config, wrong) refl)
      ]

  -- A configuration of the environment that names a broker and that the validator refuses is what the
  -- provider gives from then on, although its error comes back.
  pub get_config-read_from_env :
      (parse : Config → Option Error × Config) (cp : ConfigProvider) (config : Config) (e : Error)
      → parse cp.application_config ≡ (none, config)
      → config.broker ≢ ""
      → validate_struct config ≡ some e
      → ((read_from_env validate_struct parse cp).1 ≡ some e)
        × (get_config (read_from_env validate_struct parse cp).0 ≡ some config)
  unfolding read_from_env validate_config get_config
  get_config-read_from_env parse cp config e read named wrong =
      (rw (read, wrong) refl, rw (read, named-ne-empty config named) refl)
