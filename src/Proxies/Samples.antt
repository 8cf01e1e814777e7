-- ===== src/Proxies/Samples.antt =====
-- A machine with ufw, and the theorem on it.
use taildog.Prelude.{refl, true, false, string_key, List, [], ◌∷◌}
use taildog.Dict.{get, put}
use taildog.Proxies.{Machine, new_proxy_store, start, stop_all}
use taildog.Proxies.Balance.{IsStopped}
use taildog.Proxies.History.{
  Event, started, stopped, handle, handle_all, AllFresh, stop_all-handle_all,
}

abbrev pub ubuntu : Machine
ubuntu = record { ufw_available = true; is_root = false }

-- A listener that cannot be opened, two that can, and the end of one.
abbrev pub day : List Event
day =
    started false "tcp" 80 "t0"
    ∷ started true "tcp" 10000 "t1"
    ∷ started true "udp" 10001 "t2"
    ∷ stopped "t1"
    ∷ []

pub day-AllFresh : AllFresh ubuntu day new_proxy_store
unfolding AllFresh new_proxy_store start get handle put
day-AllFresh = (refl, (refl, (refl, (tt, tt))))

stop_all-handle_all_example : IsStopped (stop_all ubuntu (handle_all ubuntu day new_proxy_store))
stop_all-handle_all_example = stop_all-handle_all ubuntu refl day day-AllFresh
