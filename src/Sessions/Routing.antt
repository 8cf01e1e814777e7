-- ===== src/Sessions/Routing.antt =====
-- Where the bytes of a daemon go, and that each connection is closed once.
use taildog.Prelude.{
  refl, ap, ◌∙◌, ℕ, ℤ, ◌≡◌, String, Bool, true, false, string_key, ◌==◌, List, [], ◌∷◌, ◌++◌, arith,
  if◌then◌else◌,
}
use taildog.Dict.{get-put, get-delete, values}
use taildog.Proxies.{Network}
use taildog.Sessions.{
  ExtConn, tcp_ext, udp_ext, Outside, ClientSession, send, open_conn, close_conn, write_to_external,
  close_all_external, close_ext, close_each,
}

-- The TCP connections among those of a session.
abbrev pub tcp_of : List ExtConn → List ℕ
tcp_of [] = []
tcp_of (tcp_ext n ∷ cs) = n ∷ tcp_of cs
tcp_of (udp_ext n addr ∷ cs) = tcp_of cs

append_assoc : {A : Type 0} (xs ys zs : List A) → (xs ++ ys) ++ zs ≡ xs ++ (ys ++ zs)
append_assoc [] ys zs = refl
append_assoc (x ∷ xs) ys zs = ap (λ l. x ∷ l) (append_assoc xs ys zs)

append_nil : {A : Type 0} (xs : List A) → xs ++ [] ≡ xs
append_nil [] = refl
append_nil (x ∷ xs) = ap (λ l. x ∷ l) (append_nil xs)

closed-close_each :
    (cs : List ExtConn) (o : Outside) → (close_each cs o).closed ≡ o.closed ++ tcp_of cs
closed-close_each [] o = rw (append_nil o.closed) refl
closed-close_each (tcp_ext n ∷ cs) o =
    closed-close_each cs (close_ext (tcp_ext n) o) ∙ append_assoc o.closed (n ∷ []) (tcp_of cs)
closed-close_each (udp_ext n addr ∷ cs) o = closed-close_each cs o

-- CloseAllExternal closes each TCP connection of the session once and no other, and leaves the
-- session without connections.
pub close_all_external_lem :
    (s : ClientSession) (o : Outside)
    → ((close_all_external s o).1.closed ≡ o.closed ++ tcp_of (values s.conns))
      × ((close_all_external s o).0.conns ≡ [])
unfolding close_all_external
close_all_external_lem s o = (closed-close_each (values s.conns) o, refl)

module _ (s : ClientSession) (o : Outside) (conn_id : String) where
  -- After an open frame was written, what the daemon sends for that connection is written to the
  -- connection that was opened, and what it sends for any other goes where it went before.
  pub write_to_external-open_conn :
      (k tunnel_id : String) (protocol : Network) (ext : ExtConn) (local_port : ℤ) (bytes : List ℕ)
      → let s' = (open_conn true conn_id tunnel_id protocol ext local_port s).1 in
        write_to_external k bytes s' o ≡ (
          if conn_id == k
          then record o { written = o.written ++ (ext, bytes) ∷ [] }
          else write_to_external k bytes s o)
  unfolding open_conn write_to_external send
  write_to_external-open_conn k tunnel_id protocol ext local_port bytes =
      rw (write_to_external, get-put conn_id k ext s.conns) (ground arith)

  -- After a connection was closed nothing is written to it, and what the daemon sends for any other
  -- goes where it went before.
  pub write_to_external-close_conn :
      (writes send_frame : Bool) (k : String) (bytes : List ℕ) (o' : Outside)
      → write_to_external k bytes (close_conn writes conn_id send_frame s o).0 o'
        ≡ (if conn_id == k then o' else write_to_external k bytes s o')
  unfolding close_conn write_to_external send
  write_to_external-close_conn true true k bytes o' =
      rw (write_to_external, get-delete conn_id k s.conns) (ground arith)
  write_to_external-close_conn false true k bytes o' =
      rw (write_to_external, get-delete conn_id k s.conns) (ground arith)
  write_to_external-close_conn writes false k bytes o' =
      rw (write_to_external, get-delete conn_id k s.conns) (ground arith)
