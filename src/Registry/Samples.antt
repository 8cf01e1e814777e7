-- ===== src/Registry/Samples.antt =====
-- A relay with three ports, one client and one tunnel, and each theorem at an input.
use taildog.Prelude.{refl, pos, ◌≡◌, String, none, some, arith, string_key}
use taildog.Dict.{get, put, delete}
use taildog.Pool.{allocate, auto_assign, scan, advance, is_allocated, new_pool}
use taildog.Registry.{
  Tunnel, new_registry, tunnel_of, add_client, register, add_tunnel, remove_tunnel, get_tunnel,
  get_client, remove_client, client_on_connect,
}
use taildog.Registry.System.{
  System, Inv, Reach, here, next, connect, reserve, publish, reserved, published,
}
use taildog.Registry.Interleaving.{initial, reachable-Inv, port_exclusive}
use taildog.Registry.Adding.{AddResult, add_tunnel-AddResult}
use taildog.Registry.Lifecycle.{RemoveOutcome, remove_tunnel-RemoveOutcome}
use taildog.Registry.Orphans.{orphan_unlisted}

abbrev pub connected : System
connected = record (initial 10000 10002) {
  registry = (add_client (initial 10000 10002).registry "c1" "laptop" "10.0.0.7" 100).0;
}

abbrev pub web : Tunnel
web = tunnel_of "t1" "c1" "tcp" (pos 3000) 10000 101

abbrev pub waiting : System
waiting = reserved connected web (allocate connected.registry.pool (pos 0)).1

abbrev pub serving : System
serving = published waiting web

Reach-serving : Reach (initial 10000 10002) serving
unfolding new_registry new_pool add_client allocate auto_assign scan advance is_allocated get put
    register delete
Reach-serving =
    next
      (next (next here (connect "c1" "laptop" "10.0.0.7" 100))
        (reserve "t1" "c1" "tcp" (pos 3000) (pos 0) 101 10000 refl refl))
      (publish web refl)

serving_tunnel : get_tunnel serving.registry "t1" ≡ some web
unfolding get_tunnel new_registry new_pool add_client allocate auto_assign scan advance is_allocated
    get put register delete
serving_tunnel = refl

pub serving-Inv : Inv serving
serving-Inv = reachable-Inv 10000 10002 serving (omega arith) Reach-serving

reachable-Inv_example : Inv serving
reachable-Inv_example = reachable-Inv 10000 10002 serving (omega arith) Reach-serving

port_exclusive_example : (◌≡◌ {A = String} "t1" "t1") × (web ≡ web)
port_exclusive_example =
    port_exclusive 10000 10002 serving "t1" "t1" web web (omega arith) Reach-serving serving_tunnel
      serving_tunnel refl

add_tunnel-AddResult_example :
    AddResult serving.registry "t2" "c1" "udp"
      (pos 53)
      (pos 10002)
      102
      (add_tunnel serving.registry "t2" "c1" "udp" (pos 53) (pos 10002) 102).0
      (add_tunnel serving.registry "t2" "c1" "udp" (pos 53) (pos 10002) 102).1
add_tunnel-AddResult_example =
    add_tunnel-AddResult serving.registry "t2" "c1" "udp" (pos 53) (pos 10002) 102
      serving-Inv.exclusive.valid

remove_tunnel-RemoveOutcome_example :
    RemoveOutcome serving.registry "t1"
      (remove_tunnel serving.registry "t1").0
      (remove_tunnel serving.registry "t1").1
remove_tunnel-RemoveOutcome_example = remove_tunnel-RemoveOutcome serving "t1" serving-Inv

abbrev orphan : Tunnel
orphan = tunnel_of "t2" "ghost" "tcp" (pos 22) 10001 102

orphan_unlisted_example :
    (get_client
        (add_client
          (add_tunnel serving.registry "t2" "ghost" "tcp" (pos 22) (pos 0) 102).1
          "ghost"
          "late"
          "10.0.0.8"
          200).0
        "ghost"
      ≡ some (client_on_connect none "ghost" "late" "10.0.0.8" 200))
    × (get_tunnel
          (add_client
            (add_tunnel serving.registry "t2" "ghost" "tcp" (pos 22) (pos 0) 102).1
            "ghost"
            "late"
            "10.0.0.8"
            200).0
          "t2"
        ≡ some orphan)
    × (get_tunnel
          (remove_client
            (add_client
              (add_tunnel serving.registry "t2" "ghost" "tcp" (pos 22) (pos 0) 102).1
              "ghost"
              "late"
              "10.0.0.8"
              200).0
            "ghost").0
          "t2"
        ≡ some orphan)
unfolding get_client add_tunnel new_registry new_pool add_client allocate auto_assign scan advance
    is_allocated get put register delete
orphan_unlisted_example =
    orphan_unlisted serving.registry "t2" "ghost" "tcp" (pos 22) (pos 0) 102 orphan 10001 refl refl
      "late" "10.0.0.8" 200
