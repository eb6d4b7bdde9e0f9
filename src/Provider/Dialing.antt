-- ===== src/Provider/Dialing.antt =====
-- `CreateConnection`: the parameters of the dial, and the dial.
use paota.Common.{ℕ, Option, none, some, if◌then◌else◌}
use paota.Common.Int.{ℤ, pos, ◌*ℤ◌, wrap64, leb_ℤ}
use paota.Schema.{second, Duration, nil_config}
use paota.Config.{AmqpConfig}
use paota.World.{Env, Dial, Exec, pure, raise, ◌>>=◌, ◌>>◌, fail_if, next_call}

-- `time.Duration(n) * time.Second`, with a default for what is not positive.
unfoldable pub seconds_or : ℤ → ℤ → Duration
seconds_or n default_seconds =
    let d = wrap64 (n *ℤ second) in
    if leb_ℤ d (pos 0) then wrap64 (default_seconds *ℤ second) else d

unfoldable pub dial_settings : AmqpConfig → Dial
unfolding seconds_or
dial_settings conf = record {
  url = conf.url;
  heartbeat = seconds_or conf.heart_beat_interval (pos 10);
  locale = "en_US";
  timeout = seconds_or conf.connection_timeout (pos 5);
}

unfoldable pub create_connection : Env → Option AmqpConfig → Exec ℕ
unfolding dial_settings
create_connection env none = raise nil_config
create_connection env (some conf) = do
  i ← next_call
  fail_if (env.dial i (dial_settings conf))
  pure i
