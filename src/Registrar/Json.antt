-- ===== src/Registrar/Json.antt =====
-- What the program relies on of encoding/json.
use paota.Common.{◌≡◌, ◌≢◌, some, List, []}
use paota.Schema.{Arg, Bytes, Signature}
use paota.World.{Env}
use paota.Broker.{null_bytes}

-- What encoding/json reads of a signature that it has written: an interface value can come back as
-- another type (a number as a float64), and no raw arguments as the bytes of `null`.
abbrev pub json_image : (List Arg → List Arg) → Signature → Signature
json_image reread s = record s { args = reread s.args; raw_args = null_bytes }

-- A signature with no raw arguments, if it can be written, is written in some bytes and read back.
pub record IsReadable (env : Env) (reread : List Arg → List Arg) (s : Signature) : Type 0 where
  pub full : env.marshal s ≢ some []
  pub read :
      (body : Bytes) → env.marshal s ≡ some body → env.unmarshal body ≡ some (json_image reread s)
