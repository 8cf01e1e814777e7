-- ===== src/Proxies/Balance.antt =====
-- Every firewall rule that a tunnel's listener opened is deleted again.
use taildog.Prelude.{
  beq_refl, refl, ◌∙◌, ℕ, suc, ◌+◌, ◌≡◌, String, Bool, true, false, ◌&&◌, string_key, nat_key, ◌==◌,
  none, some, List, [], ◌∷◌, ◌++◌, arith, if◌then◌else◌, Option-cases, inl, inr, beq-cases, eq_iff,
}
use taildog.Dict.{Dict, get, put, delete, values, get-put, get-delete}
use taildog.Proxies.{
  Network, tcp, udp, Verb, allow, delete_allow, UfwCommand, ProxyEntry, ProxyStore, Machine,
  ufw_allow, ufw_delete, start, network_of, stop, stop_all, close_all, close_entry,
}

abbrev same_network : Network → Network → Bool
same_network tcp tcp = true
same_network udp udp = true
same_network _ _ = false

abbrev is_verb : Verb → Verb → Bool
is_verb allow allow = true
is_verb delete_allow delete_allow = true
is_verb _ _ = false

module _ (port : ℕ) (net : Network) where
  abbrev fits : Verb → UfwCommand → Bool
  fits v c = is_verb v c.verb && ((c.port == port) && same_network c.proto net)

  -- How often the rule for this port and network was allowed, or deleted.
  abbrev pub commands_of : Verb → List UfwCommand → ℕ
  commands_of v [] = 0
  commands_of v (c ∷ cs) = let rest = commands_of v cs in if fits v c then suc rest else rest

  abbrev listens : ProxyEntry → ℕ
  listens e = if (e.remote_port == port) && same_network e.protocol net then 1 else 0

  -- How many of the listeners are on this port and network.
  abbrev pub listeners : List ProxyEntry → ℕ
  listeners [] = 0
  listeners (e ∷ es) = listens e + listeners es

  commands_of-append :
      (v : Verb) (xs ys : List UfwCommand)
      → commands_of v (xs ++ ys) ≡ commands_of v xs + commands_of v ys
  commands_of-append v [] ys = omega arith
  commands_of-append v (x ∷ xs) ys = ground (arith, commands_of-append v xs ys)

  listeners-append : (xs ys : List ProxyEntry) → listeners (xs ++ ys) ≡ listeners xs + listeners ys
  listeners-append [] ys = omega arith
  listeners-append (x ∷ xs) ys = omega (arith, listeners-append xs ys)

  listeners-put_fresh :
      (k : String) (e : ProxyEntry) (m : Dict String ProxyEntry)
      → get k m ≡ none
      → listeners (values (put k e m)) ≡ listeners (values m) + listens e
  unfolding get put
  listeners-put_fresh k e [] n = omega arith
  listeners-put_fresh k e ((j, x) ∷ m) n = ground (arith, listeners-put_fresh k e m)

abbrev pub HasKeysOnce : Dict String ProxyEntry → Type 0
HasKeysOnce [] = Unit {0}
HasKeysOnce ((k, e) ∷ m) = (get k m ≡ none) × HasKeysOnce m

get-delete_ne :
    (k j : String) (m : Dict String ProxyEntry) → get j m ≡ none → get j (delete k m) ≡ none
get-delete_ne k j m n = ground (arith, get-delete k j m)

HasKeysOnce-delete :
    (k : String) (m : Dict String ProxyEntry) → HasKeysOnce m → HasKeysOnce (delete k m)
unfolding delete
HasKeysOnce-delete k [] d = tt
HasKeysOnce-delete k ((j, x) ∷ m) d =
    ground (arith, HasKeysOnce-delete k m d.1, get-delete_ne k j m d.0)

HasKeysOnce-put :
    (k : String) (e : ProxyEntry) (m : Dict String ProxyEntry)
    → HasKeysOnce m
    → HasKeysOnce (put k e m)
unfolding put
HasKeysOnce-put k e [] d = (unfold get in refl, tt)
HasKeysOnce-put k e ((j, x) ∷ m) d = elim (beq-cases j k) [
  | inl s ↦ rw (s, beq_refl k) (rw s at d.0, d.1)
  | inr (ne, f) ↦ rw f (ground (arith, get-put k j e m, eq_iff k j, d.0), HasKeysOnce-put k e m d.1)
]

delete_absent : (k : String) (m : Dict String ProxyEntry) → get k m ≡ none → delete k m ≡ m
unfolding get delete
delete_absent k [] n = refl
delete_absent k ((j, x) ∷ m) n = ground (arith, delete_absent k m)

listeners-delete :
    (port : ℕ) (net : Network) (k : String) (e : ProxyEntry) (m : Dict String ProxyEntry)
    → HasKeysOnce m
    → get k m ≡ some e
    → listeners port net (values m) ≡ listeners port net (values (delete k m)) + listens port net e
unfolding get delete
listeners-delete port net k e [] d g = cc
listeners-delete port net k e ((j, x) ∷ m) d g = elim (beq-cases j k) [
  | inl s ↦
      let same : x ≡ e = ground (arith, eq_iff j k) in
      let gone : delete k m ≡ m = delete_absent k m (rw s at d.0) in
      rw (s, beq_refl k, gone, same) (omega arith)
  | inr (ne, f) ↦ rw f (omega (arith, listeners-delete port net k e m d.1 (rw f at g)))
]

-- The rule of each port and network was allowed once more for each listener that the store holds on
-- it than it was deleted, and so often was a listener opened on it more than one was closed.
pub record Balanced (p : ProxyStore) : Type 0 where
  pub keys : HasKeysOnce p.entries
  pub balance :
      (port : ℕ) (net : Network)
      → commands_of port net allow p.commands
        ≡ commands_of port net delete_allow p.commands + listeners port net (values p.entries)
  pub handles :
      (port : ℕ) (net : Network)
      → listeners port net p.opened
        ≡ listeners port net p.closed + listeners port net (values p.entries)

-- The store holds no listener, and for each port and network as many listeners were closed as opened,
-- and as many rules deleted as allowed.
pub record IsStopped (p : ProxyStore) : Type 0 where
  pub no_entries : p.entries ≡ []
  pub rules :
      (port : ℕ) (net : Network)
      → commands_of port net allow p.commands ≡ commands_of port net delete_allow p.commands
  pub handles :
      (port : ℕ) (net : Network) → listeners port net p.opened ≡ listeners port net p.closed

module _ (m : Machine) (available : m.ufw_available ≡ true) where
  module _ (port : ℕ) (net : Network) where
    allow-close_entry :
        (e : ProxyEntry) (p : ProxyStore)
        → commands_of port net allow (close_entry m e p).commands
          ≡ commands_of port net allow p.commands
    unfolding ufw_delete
    allow-close_entry e p = ground (
      arith,
      commands_of-append port net allow p.commands (ufw_delete m e.remote_port e.protocol),
    )

    delete-close_entry :
        (e : ProxyEntry) (p : ProxyStore)
        → commands_of port net delete_allow (close_entry m e p).commands
          ≡ commands_of port net delete_allow p.commands + listens port net e
    unfolding ufw_delete
    delete-close_entry e p = ground (
      arith,
      commands_of-append port net delete_allow p.commands (ufw_delete m e.remote_port e.protocol),
    )

    close_all-handles :
        (es : List ProxyEntry) (p : ProxyStore)
        → (listeners port net (close_all m es p).opened ≡ listeners port net p.opened)
          × (listeners port net (close_all m es p).closed
              ≡ listeners port net p.closed + listeners port net es)
    unfolding close_all
    close_all-handles [] p = (refl, omega arith)
    close_all-handles (e ∷ es) p =
        let (a, b) = close_all-handles es (close_entry m e p) in
        (a, omega (arith, b, listeners-append port net p.closed (e ∷ [])))

    close_all-balance :
        (es : List ProxyEntry) (p : ProxyStore)
        → (commands_of port net allow (close_all m es p).commands
            ≡ commands_of port net allow p.commands)
          × (commands_of port net delete_allow (close_all m es p).commands
              ≡ commands_of port net delete_allow p.commands + listeners port net es)
    unfolding close_all
    close_all-balance [] p = (refl, omega arith)
    close_all-balance (e ∷ es) p =
        let (a, b) = close_all-balance es (close_entry m e p) in
        (a ∙ allow-close_entry e p, omega (arith, b, delete-close_entry e p))

  entries-close_all :
      (es : List ProxyEntry) (p : ProxyStore) → (close_all m es p).entries ≡ p.entries
  unfolding close_all
  entries-close_all [] p = refl
  entries-close_all (e ∷ es) p = entries-close_all es (close_entry m e p)

  -- On a machine with ufw, starting a listener for a tunnel that has none, whether or not the
  -- system lets it listen, keeps the store balanced.
  pub start-Balanced :
      (ok_listen : Bool) (proto id : String) (port : ℕ) (p : ProxyStore)
      → get id p.entries ≡ none
      → Balanced p
      → Balanced (start m ok_listen proto port id p).1
  unfolding start ufw_allow
  start-Balanced false proto id port p n b = b
  start-Balanced true proto id port p n b = record {
    keys =
        HasKeysOnce-put id (record { protocol = network_of proto; remote_port = port }) p.entries
          b.keys;
    balance = λ x net. ground (
      arith,
      b.balance x net,
      commands_of-append x net allow p.commands (ufw_allow m port (network_of proto)),
      commands_of-append x net delete_allow p.commands (ufw_allow m port (network_of proto)),
      listeners-put_fresh x net id (record { protocol = network_of proto; remote_port = port })
          p.entries,
    );
    handles = λ x net.
        let e : ProxyEntry = record { protocol = network_of proto; remote_port = port } in
        omega (
          arith,
          b.handles x net,
          listeners-append x net p.opened (e ∷ []),
          listeners-put_fresh x net id e p.entries n,
        );
  }

  -- On a machine with ufw, stopping a tunnel's listener, known or not, keeps the store balanced.
  pub stop-Balanced : (id : String) (p : ProxyStore) → Balanced p → Balanced (stop m id p)
  stop-Balanced id p b = elim (Option-cases (get id p.entries)) [
    | inl n ↦ unfold stop in rw (n, stop) b
    | inr (e, s) ↦
        unfold stop in
        rw (s, stop)
          (record {
            keys = HasKeysOnce-delete id p.entries b.keys;
            balance = λ x net. omega (
              arith,
              b.balance x net,
              allow-close_entry x net e p,
              delete-close_entry x net e p,
              listeners-delete x net id e p.entries b.keys s,
            );
            handles = λ x net. omega (
              arith,
              b.handles x net,
              listeners-append x net p.closed (e ∷ []),
              listeners-delete x net id e p.entries b.keys s,
            );
          })
  ]

  -- On a machine with ufw, StopAll of a balanced store leaves no entry, each listener that was opened
  -- is closed, and each rule was deleted as often as it was allowed.
  pub stop_all-balance : (p : ProxyStore) → Balanced p → IsStopped (stop_all m p)
  unfolding stop_all
  stop_all-balance p b =
      let rest = record p { entries = [] } in
      record {
        no_entries = entries-close_all (values p.entries) rest;
        rules = λ port net.
            let (a, c) = close_all-balance port net (values p.entries) rest in
            omega (arith, a, c, b.balance port net);
        handles = λ port net.
            let (a, c) = close_all-handles port net (values p.entries) rest in
            omega (arith, a, c, b.handles port net);
      }
