-- ===== src/Client/Config.antt =====
-- client/internal/config/config.go: the client's configuration file. The package yaml is a parameter;
-- the file and what the system answers to the calls is one `Disk` value. The path of the file is
-- where the system says, and one run has one.
pub mod Storage
use taildog.Prelude.{
  ℕ, ℤ, pos, String, Bool, true, false, Option, none, some, List, [], Result, ok, err, ◌≡◌,
  if◌then◌else◌,
}

-- The configuration's own Tunnel, which is not the registry's.
pub record Tunnel : Type 0 where
  pub id : String
  pub protocol : String
  pub local_port : ℤ
  pub remote_port : ℤ

pub record Config : Type 0 where
  pub relay_host : String
  pub relay_port : ℤ
  pub auth_token : String
  pub ca_cert_path : String
  pub tunnels : List Tunnel

-- yaml.Marshal, and yaml.Unmarshal into a value that is there; `none` is their error.
pub record Yaml : Type 0 where
  pub marshal : Config → Option (List ℕ)
  pub unmarshal : List ℕ → Config → Option Config

-- A document that was made from a value sets all its fields.
pub record RoundTrips (y : Yaml) : Type 0 where
  pub unmarshal-marshal :
      (c old : Config) (bytes : List ℕ) → y.marshal c ≡ some bytes → y.unmarshal bytes old ≡ some c

-- The file, and whether ReadFile, MkdirAll and WriteFile succeed; a WriteFile that fails may leave
-- anything.
pub record Disk : Type 0 where
  pub config_file : Option (List ℕ)
  pub readable : Bool
  pub mkdir_ok : Bool
  pub write_ok : Bool
  pub after_failed_write : Option (List ℕ)

pub data ConfigError : Type 0 where
  read_failed parse_failed mkdir_failed marshal_failed write_failed : ConfigError

unfoldable pub default_config : Config
default_config = record {
  relay_host = "";
  relay_port = pos 7700;
  auth_token = "";
  ca_cert_path = "";
  tunnels = [];
}

parsed : Option Config → Result ConfigError Config
parsed none = err parse_failed
parsed (some c) = ok c

module _ (y : Yaml) where
  unfoldable pub load : Disk → Result ConfigError Config
  unfolding parsed
  load d =
      if d.readable
      then elim d.config_file [
        | none ↦ ok default_config
        | some bytes ↦ parsed (y.unmarshal bytes default_config)
      ]
      else err read_failed

  write : Disk → Option (List ℕ) → Result ConfigError (Unit {0}) × Disk
  write d none = (err marshal_failed, d)
  write d (some bytes) =
      if d.write_ok
      then (ok tt, record d { config_file = some bytes })
      else (err write_failed, record d { config_file = d.after_failed_write })

  unfoldable pub save : Config → Disk → Result ConfigError (Unit {0}) × Disk
  unfolding write
  save c d = if d.mkdir_ok then write d (y.marshal c) else (err mkdir_failed, d)
