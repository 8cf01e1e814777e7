-- ===== src/Hub/Samples.antt =====
-- Two dashboards, one of which no longer reads, and each theorem at an input.
use taildog.Prelude.{refl, ◌≡◌, true, false, nat_key, none, [], ◌∷◌, arith}
use taildog.Dict.{get}
use taildog.Hub.{Hub, WsClient, client_disconnected, broadcast}
use taildog.Hub.Delivery.{IsBounded, get-broadcast}

abbrev reader : WsClient
reader = record { send = client_disconnected "c0" ∷ []; closed = false }

abbrev gone : WsClient
gone = record { send = []; closed = true }

abbrev two : Hub
two = record { clients = (1, reader) ∷ (2, gone) ∷ [] }

two-IsBounded : IsBounded two
unfolding get
two-IsBounded k c e = ground arith

get-broadcast_example : get 2 (broadcast (λ k. false) (client_disconnected "c1") two).clients ≡ none
unfolding get
get-broadcast_example =
    get-broadcast (λ k. false) (client_disconnected "c1") 2 two gone (refl, (refl, tt)) refl
