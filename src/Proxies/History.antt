-- ===== src/Proxies/History.antt =====
-- The listeners over any sequence of starts and stops.
use taildog.Prelude.{true, refl, ℕ, ◌≡◌, String, Bool, none, List, [], ◌∷◌, string_key}
use taildog.Dict.{get}
use taildog.Proxies.{ProxyStore, Machine, start, stop, stop_all, new_proxy_store}
use taildog.Proxies.Balance.{Balanced, IsStopped, start-Balanced, stop-Balanced, stop_all-balance}

-- A call of `start`, with whether the system lets it listen, or of `stop`.
pub data Event : Type 0 where
  started : Bool → String → ℕ → String → Event
  stopped : String → Event

module _ (m : Machine) where
  unfoldable pub handle : Event → ProxyStore → ProxyStore
  handle (started listens proto port id) p = (start m listens proto port id p).1
  handle (stopped id) p = stop m id p

  unfoldable pub handle_all : List Event → ProxyStore → ProxyStore
  unfolding handle
  handle_all [] p = p
  handle_all (e ∷ es) p = handle_all es (handle e p)

  -- A start is for a tunnel that has no listener.
  pub IsFresh : Event → ProxyStore → Type 0
  IsFresh (started listens proto port id) p = get id p.entries ≡ none
  IsFresh (stopped id) p = Unit

  unfoldable pub AllFresh : List Event → ProxyStore → Type 0
  unfolding IsFresh
  AllFresh [] p = Unit
  AllFresh (e ∷ es) p = IsFresh e p × AllFresh es (handle e p)

  module _ (available : m.ufw_available ≡ true) where
    handle_all-Balanced :
        (es : List Event) (p : ProxyStore) → AllFresh es p → Balanced p → Balanced (handle_all es p)
    unfolding handle_all AllFresh
    handle_all-Balanced [] p f b = b
    handle_all-Balanced (started listens proto port id ∷ es) p (f, rest) b =
        handle_all-Balanced es _ rest (start-Balanced m available listens proto id port p f b)
    handle_all-Balanced (stopped id ∷ es) p (f, rest) b =
        handle_all-Balanced es _ rest (stop-Balanced m available id p b)

    new_proxy_store-Balanced : Balanced new_proxy_store
    unfolding new_proxy_store
    new_proxy_store-Balanced = record {
      keys = tt;
      balance = λ port net. refl;
      handles = λ port net. refl;
    }

    -- On a machine with ufw and from an empty store, after any sequence of starts, each for a
    -- tunnel without a listener and successful or not, and of stops, StopAll empties the store; on
    -- each port and network as many listeners were then closed as were opened, and as many rules
    -- deleted as allowed.
    pub stop_all-handle_all :
        (es : List Event)
        → AllFresh es new_proxy_store
        → IsStopped (stop_all m (handle_all es new_proxy_store))
    stop_all-handle_all es f =
        stop_all-balance m available _
          (handle_all-Balanced es new_proxy_store f new_proxy_store-Balanced)
