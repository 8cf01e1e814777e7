-- ===== src/Client/Samples.antt =====
-- A machine with two configurations that package yaml could write, and the commands' theorems there.
pub mod Running
use taildog.Prelude.{
  refl, sym, ap, ◌∙◌, ◌≡◌, ◌≢◌, ℕ, ℤ, pos, negsuc, String, Bool, true, false, ◌&&◌, and_true,
  nat_key, string_key, ◌==◌, eq_iff, Option, none, some, List, [], ◌∷◌, ◌++◌, Result, ok, err,
  if◌then◌else◌, arith, Bool-cases, keep, atoi, strip_prefix, inl, inr, ◌⊎◌, length,
}
use taildog.Client.Config.{Tunnel, Config, Yaml, RoundTrips, Disk, load, save}
use taildog.Client.Commands.{CommandError, Cli, matches, cmd_add, cmd_remove, new_tunnel}
use taildog.Client.Commands.Arguments.{Improper}
use taildog.Client.Commands.Editing.{
  Outcome, Added, Removed, Unremovable, cmd_add-Outcome, cmd_remove-Outcome, cmd_remove-cmd_add,
}

abbrev same_int : ℤ → ℤ → Bool
same_int (pos m) (pos n) = m == n
same_int (negsuc m) (negsuc n) = m == n
same_int _ _ = false

same_int_sound : (a b : ℤ) → same_int a b ≡ true → a ≡ b
same_int_sound (pos m) (pos n) h = ap pos ((nat_key.same_iff m n).0 h)
same_int_sound (negsuc m) (negsuc n) h = ap negsuc ((nat_key.same_iff m n).0 h)
same_int_sound (pos m) (negsuc n) h = cc
same_int_sound (negsuc m) (pos n) h = cc

abbrev same_tunnel : Tunnel → Tunnel → Bool
same_tunnel t u =
    (t.id == u.id && t.protocol == u.protocol)
    && (same_int t.local_port u.local_port && same_int t.remote_port u.remote_port)

same_tunnel_sound : (t u : Tunnel) → same_tunnel t u ≡ true → t ≡ u
same_tunnel_sound t u h =
    let (a, b) = and_true _ _ h in
    let (i, p) = and_true _ _ a in
    let (l, r) = and_true _ _ b in
    let i' = (eq_iff t.id u.id).0 i in
    let p' = (eq_iff t.protocol u.protocol).0 p in
    let l' = same_int_sound t.local_port u.local_port l in
    let r' = same_int_sound t.remote_port u.remote_port r in cc

abbrev same_tunnels : List Tunnel → List Tunnel → Bool
same_tunnels [] [] = true
same_tunnels (t ∷ ts) (u ∷ us) = same_tunnel t u && same_tunnels ts us
same_tunnels _ _ = false

same_tunnels_sound : (ts us : List Tunnel) → same_tunnels ts us ≡ true → ts ≡ us
same_tunnels_sound [] [] h = refl
same_tunnels_sound (t ∷ ts) (u ∷ us) h =
    let (a, b) = and_true _ _ h in
    let first = same_tunnel_sound t u a in let others = same_tunnels_sound ts us b in cc
same_tunnels_sound [] (u ∷ us) h = cc
same_tunnels_sound (t ∷ ts) [] h = cc

abbrev same_config : Config → Config → Bool
same_config c d =
    (c.relay_host == d.relay_host && same_int c.relay_port d.relay_port)
    && (c.auth_token == d.auth_token
        && (c.ca_cert_path == d.ca_cert_path && same_tunnels c.tunnels d.tunnels))

same_config_sound : (c d : Config) → same_config c d ≡ true → c ≡ d
same_config_sound c d h =
    let (a, b) = and_true _ _ h in
    let (host, port) = and_true _ _ a in
    let (token, e) = and_true _ _ b in
    let (path, ts) = and_true _ _ e in
    let host' = (eq_iff c.relay_host d.relay_host).0 host in
    let port' = same_int_sound c.relay_port d.relay_port port in
    let token' = (eq_iff c.auth_token d.auth_token).0 token in
    let path' = (eq_iff c.ca_cert_path d.ca_cert_path).0 path in
    let ts' = same_tunnels_sound c.tunnels d.tunnels ts in cc

abbrev pub web : Tunnel
web = record { id = "t1"; protocol = "http"; local_port = pos 3000; remote_port = pos 0 }

abbrev pub shell : Tunnel
shell = record { id = "t2"; protocol = "tcp"; local_port = pos 22; remote_port = pos 10022 }

abbrev pub one_tunnel : Config
one_tunnel = record {
  relay_host = "relay.example.com";
  relay_port = pos 7700;
  auth_token = "";
  ca_cert_path = "";
  tunnels = web ∷ [];
}

abbrev two_tunnels : Config
two_tunnels = record one_tunnel { tunnels = web ∷ shell ∷ [] }

abbrev read_table : List ℕ → Option Config
read_table [] = none
read_table (b ∷ bs) = if b == 1 then some one_tunnel else if b == 2 then some two_tunnels else none

-- A package that writes these two configurations, and refuses all others.
abbrev pub table_yaml : Yaml
table_yaml = record {
  marshal = λ c.
      if same_config c one_tunnel
      then some (1 ∷ [])
      else if same_config c two_tunnels
      then some (2 ∷ [])
      else none;
  unmarshal = λ bytes old. read_table bytes;
}

picked :
    (a b : Bool) (bytes : List ℕ)
    → (if a then some (1 ∷ []) else if b then some (2 ∷ []) else none) ≡ some bytes
    → ((a ≡ true) × (bytes ≡ 1 ∷ [])) ⊎ ((b ≡ true) × (bytes ≡ 2 ∷ []))
picked true b bytes h = inl (refl, cc)
picked false true bytes h = inr (refl, cc)
picked false false bytes h = cc

pub table_yaml-RoundTrips : RoundTrips table_yaml
table_yaml-RoundTrips = record {
  unmarshal-marshal = λ c old bytes h.
      elim (picked (same_config c one_tunnel) (same_config c two_tunnels) bytes h) [
        | inl (y, q) ↦ ap read_table q ∙ ap some (sym (same_config_sound c one_tunnel y))
        | inr (y, q) ↦ ap read_table q ∙ ap some (sym (same_config_sound c two_tunnels y))
      ];
}

abbrev pub renode : Cli
renode = record { yaml = table_yaml; to_lower = λ s. s }

abbrev pub disk : Disk
disk = record {
  config_file = some (1 ∷ []);
  readable = true;
  mkdir_ok = true;
  write_ok = true;
  after_failed_write = none;
}

cmd_add-Outcome_example :
    Outcome renode disk
      (cmd_add renode "t2" "tcp" "22" (some "10022") disk)
      (Added renode "t2" "tcp" "22" (some "10022"))
      (Improper renode disk "tcp" "22" (some "10022"))
cmd_add-Outcome_example =
    cmd_add-Outcome renode table_yaml-RoundTrips disk refl "t2" "tcp" "22" (some "10022")

cmd_remove-Outcome_example :
    Outcome renode disk
      (cmd_remove renode "t" disk)
      (Removed renode "t")
      (Unremovable renode disk "t")
cmd_remove-Outcome_example = cmd_remove-Outcome renode table_yaml-RoundTrips disk refl "t"

cmd_remove-cmd_add_example :
    let removed = cmd_remove renode "t2" (cmd_add renode "t2" "tcp" "22" (some "10022") disk).1 in
    (removed.0 ≡ ok shell) × (load table_yaml removed.1 ≡ ok one_tunnel)
unfolding load cmd_add cmd_remove strip_prefix atoi save
cmd_remove-cmd_add_example =
    cmd_remove-cmd_add renode table_yaml-RoundTrips "t2" "tcp" "22" (some "10022") one_tunnel shell
      disk refl refl refl (λ e. cc) refl

-- A prefix of two identifiers, and a protocol that is not known.
ambiguous_prefix :
    (cmd_remove renode "t" (record disk { config_file = some (2 ∷ []) })).0
    ≡ err (CommandError.ambiguous "t" 2)
unfolding cmd_remove load strip_prefix
ambiguous_prefix = refl

unknown_proto :
    cmd_add renode "t2" "gopher" "22" none disk
    ≡ (err (CommandError.unknown_protocol "gopher"), disk)
unfolding cmd_add
unknown_proto = refl
