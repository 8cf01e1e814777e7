-- ===== src/Client/Daemon/Effects.antt =====
-- What the daemon's operations do to the local connections and to what was written to them.
use taildog.Prelude.{
  refl, sym, ap, ◌∙◌, ℕ, ℤ, String, Bool, true, false, nat_key, string_key, ◌==◌, ◌≡◌, ◌≢◌, inl,
  inr, append-nil, append_assoc, none, some, List, [], ◌∷◌, ◌++◌, if◌then◌else◌, Bool-cases,
}
use taildog.Dict.{Dict, get, delete, get-delete}
use taildog.Proxies.{Network}
use taildog.Client.Daemon.{
  DaemonFrame, data_out, close_out, hang_up, tell_data, open_in, Daemon, Event, frame, close_local,
  safe_encode,
}

-- What was written to a local connection, in order.
pub written_to : ℕ → List (ℕ × List ℕ) → List ℕ
written_to n [] = []
written_to n ((m, bytes) ∷ log) =
    let rest = written_to n log in if m == n then bytes ++ rest else rest

written_to-append :
    (n : ℕ) (log more : List (ℕ × List ℕ))
    → written_to n (log ++ more) ≡ written_to n log ++ written_to n more
unfolding written_to
written_to-append n [] more = refl
written_to-append n ((m, bytes) ∷ log) more = elim (Bool-cases (m == n)) [
  | inl y ↦ rw (y, written_to-append n log more) (sym (append_assoc bytes _ _))
  | inr f ↦ rw f (written_to-append n log more)
]

pub safe_encode-keeps :
    (writes : Bool) (f : DaemonFrame) (s : Daemon)
    → ((safe_encode writes f s).local_conns ≡ s.local_conns)
      × ((safe_encode writes f s).written ≡ s.written)
unfolding safe_encode
safe_encode-keeps true f s = (refl, refl)
safe_encode-keeps false f s = (refl, refl)

pub tell_data-keeps :
    (writes : Bool) (c : String) (bytes : List ℕ) (s : Daemon)
    → ((tell_data writes c bytes s).local_conns ≡ s.local_conns)
      × ((tell_data writes c bytes s).written ≡ s.written)
unfolding tell_data
tell_data-keeps writes c [] s = (refl, refl)
tell_data-keeps writes c (b ∷ bs) s = safe_encode-keeps writes (data_out c (b ∷ bs)) s

pub close_local-keeps :
    (writes told : Bool) (k : String) (s : Daemon)
    → ((close_local writes k told s).local_conns ≡ delete k s.local_conns)
      × ((close_local writes k told s).written ≡ s.written)
unfolding close_local hang_up
close_local-keeps writes true k s = safe_encode-keeps writes (close_out k) (hang_up k s)
close_local-keeps writes false k s = (refl, refl)

pub close_local-get :
    (writes told : Bool) (k c : String) (s : Daemon)
    → get c (close_local writes k told s).local_conns
      ≡ (if k == c then none else get c s.local_conns)
close_local-get writes told k c s =
    ap (get c) (close_local-keeps writes told k s).0 ∙ get-delete k c s.local_conns

pub written_to-log :
    (n m : ℕ) (bytes : List ℕ) (s : Daemon)
    → written_to n (s.written ++ (m, bytes) ∷ [])
      ≡ written_to n s.written ++ (if m == n then bytes else [])
unfolding written_to
written_to-log n m bytes s =
    written_to-append n s.written ((m, bytes) ∷ []) ∙ elim (Bool-cases (m == n)) [
      | inl y ↦ rw y (ap (λ z. written_to n s.written ++ z) (append-nil bytes))
      | inr f ↦ rw f refl
    ]

-- No identifier has the connection `n`.
abbrev pub Gone : ℕ → Dict String ℕ → Type 0
Gone n conns = (c : String) → get c conns ≢ some n

-- The event opens no connection of that identifier and is answered no connection `n`: an identifier
-- is made once, and `n` is in use.
unfoldable pub IsApart : String → ℕ → Event → Type 0
IsApart conn_id n (frame writes dial (open_in tunnel_id c port protocol)) =
    (c ≢ conn_id) × ((net : Network) (p : ℤ) → dial net p ≢ some n)
IsApart conn_id n e = Unit {0}

unfoldable pub AllApart : String → ℕ → List Event → Type 0
AllApart conn_id n [] = Unit
AllApart conn_id n (e ∷ es) = IsApart conn_id n e × AllApart conn_id n es
