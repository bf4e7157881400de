-- ===== src/Env.antt =====
-- What the client's code takes from packages that are not modelled, and from its platform:
-- encoding/json's Valid, github.com/BurntSushi/toml on a struct of one Boolean field, whose key is
-- the first argument, and runtime.GOOS.
use ubuntu_insights.Base.{Bool, Bytes, Option, none, some, ◌≡◌}
use ubuntu_insights.System.World.{Result, err, ok, plain}

pub record Env : Type 0 where
  pub json_valid : Bytes → Bool
  pub toml_encode : Bytes → Bool → Option Bytes
  pub toml_decode : Bytes → Bytes → Option Bool
  pub goos : Bytes

-- Decoding what was encoded gives the value back.
pub record HasTomlRoundTrip (env : Env) : Type 0 where
  pub decode-encode :
      (key : Bytes) (v : Bool) (b : Bytes)
      → env.toml_encode key v ≡ some b
      → env.toml_decode key b ≡ some v

-- An error of a package that is not modelled holds none of the program's sentinels.
abbrev pub or_plain {ℓ} : {A : Type ℓ} → Option A → Result A
or_plain none = err plain
or_plain (some a) = ok a
