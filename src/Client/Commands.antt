-- ===== src/Client/Commands.antt =====
-- client/main.go: the commands that read and change the configuration. Package cobra has checked how
-- many arguments there are; strings.ToLower is a parameter, and so is package yaml. What is printed on
-- success is made from the value that a command answers.
pub mod Arguments
pub mod Editing
use taildog.Prelude.{
  ℕ, ℤ, pos, negsuc, String, Bool, true, false, not, ◌&&◌, ◌||◌, nat_key, string_key, ◌==◌, Option,
  none, some, List, [], ◌∷◌, ◌++◌, Result, ok, err, ◌>>=◌, if◌then◌else◌, leb, length, keep, atoi,
  has_prefix,
}
use taildog.Client.Config.{Tunnel, Config, Yaml, Disk, ConfigError, load, save}

pub record Cli : Type 0 where
  pub yaml : Yaml
  pub to_lower : String → String

pub data CommandError : Type 0 where
  unknown_protocol invalid_local_port invalid_remote_port no_tunnel : String → CommandError
  ambiguous : String → ℕ → CommandError
  loading saving : ConfigError → CommandError

-- sortedProtocols: the keys of validProtocols, all nine, in an order for people.
abbrev pub sorted_protocols : List String
sorted_protocols = "tcp" ∷ "udp" ∷ "http" ∷ "https" ∷ "socks5" ∷ "quic" ∷ "ws" ∷ "scp" ∷ "smtp" ∷ []

unfoldable pub contains : List String → String → Bool
contains [] p = false
contains (x ∷ xs) p = x == p || contains xs p

unfoldable pub valid_protocol : String → Bool
unfolding contains
valid_protocol p = contains sorted_protocols p

abbrev pub check : Bool → String → CommandError → Result CommandError String
check true s e = ok s
check false s e = err e

-- A port from the text of an argument, within the bounds.
unfoldable pub port_from : ℕ → CommandError → Option ℤ → Result CommandError ℕ
port_from low e none = err e
port_from low e (some (negsuc n)) = err e
port_from low e (some (pos n)) = if leb low n && leb n 65535 then ok n else err e

abbrev remote_from : Option String → Result CommandError ℕ
remote_from none = ok 0
remote_from (some s) = port_from 0 (invalid_remote_port s) (atoi s)

-- The tests of `add`, in their order.
unfoldable pub new_tunnel :
    Cli → String → String → String → Option String → Result CommandError Tunnel
unfolding valid_protocol port_from
new_tunnel k id protocol local remote = do
  p ←
      check (valid_protocol (k.to_lower protocol)) (k.to_lower protocol)
        (unknown_protocol (k.to_lower protocol))
  l ← port_from 1 (invalid_local_port local) (atoi local)
  r ← remote_from remote
  ok (record { id = id; protocol = p; local_port = pos l; remote_port = pos r })

module _ (k : Cli) where
  unfoldable pub saved :
      Tunnel → Result ConfigError (Unit {0}) × Disk → Result CommandError Tunnel × Disk
  saved t (ok _, d) = (ok t, d)
  saved t (err e, d) = (err (saving e), d)

  unfoldable pub add_to :
      Result CommandError Tunnel
      → Result ConfigError Config
      → Disk
      → Result CommandError Tunnel × Disk
  unfolding saved
  add_to (err e) c d = (err e, d)
  add_to (ok t) (err e) d = (err (loading e), d)
  add_to (ok t) (ok c) d = saved t (save k.yaml (record c { tunnels = c.tunnels ++ t ∷ [] }) d)

  -- `renode add`; the identifier is new.
  unfoldable pub cmd_add :
      String → String → String → Option String → Disk → Result CommandError Tunnel × Disk
  unfolding add_to new_tunnel
  cmd_add id protocol local remote d =
      add_to (new_tunnel k id protocol local remote) (load k.yaml d) d

  abbrev pub matches : String → Tunnel → Bool
  matches prefix t = has_prefix prefix t.id

  unfoldable pub drop_one : String → Config → List Tunnel → Disk → Result CommandError Tunnel × Disk
  unfolding saved
  drop_one prefix c [] d = (err (no_tunnel prefix), d)
  drop_one prefix c (t ∷ []) d =
      saved t (save k.yaml (record c { tunnels = keep (λ x. not (matches prefix x)) c.tunnels }) d)
  drop_one prefix c (t ∷ u ∷ ts) d = (err (ambiguous prefix (length (t ∷ u ∷ ts))), d)

  unfoldable pub remove_from :
      String → Result ConfigError Config → Disk → Result CommandError Tunnel × Disk
  unfolding drop_one
  remove_from prefix (err e) d = (err (loading e), d)
  remove_from prefix (ok c) d = drop_one prefix c (keep (matches prefix) c.tunnels) d

  -- `renode remove`.
  unfoldable pub cmd_remove : String → Disk → Result CommandError Tunnel × Disk
  unfolding remove_from
  cmd_remove prefix d = remove_from prefix (load k.yaml d) d
