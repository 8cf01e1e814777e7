-- ===== src/Pipe/Written.antt =====
-- What the relay wrote to one TCP connection from outside.
use taildog.Prelude.{
  refl, sym, ap, ◌∙◌, ℕ, nat_key, ◌==◌, beq_refl, beq_ne, ◌≡◌, ◌≢◌, inl, inr, append-nil,
  append_assoc, List, [], ◌∷◌, ◌++◌, if◌then◌else◌, Bool-cases,
}
use taildog.Sessions.{ExtConn, tcp_ext, udp_ext}

-- What was written to a TCP connection from outside, in order.
unfoldable pub sent_to : ℕ → List (ExtConn × List ℕ) → List ℕ
sent_to n [] = []
sent_to n ((tcp_ext m, bytes) ∷ log) =
    let rest = sent_to n log in if m == n then bytes ++ rest else rest
sent_to n ((udp_ext m addr, bytes) ∷ log) = sent_to n log

pub sent_to-append :
    (n : ℕ) (log more : List (ExtConn × List ℕ))
    → sent_to n (log ++ more) ≡ sent_to n log ++ sent_to n more
unfolding sent_to
sent_to-append n [] more = refl
sent_to-append n ((udp_ext m addr, bytes) ∷ log) more = sent_to-append n log more
sent_to-append n ((tcp_ext m, bytes) ∷ log) more = elim (Bool-cases (m == n)) [
  | inl y ↦ rw (y, sent_to-append n log more) (sym (append_assoc bytes _ _))
  | inr f ↦ rw f (sent_to-append n log more)
]

pub sent_to-own : (n : ℕ) (bytes : List ℕ) → sent_to n ((tcp_ext n, bytes) ∷ []) ≡ bytes
unfolding sent_to
sent_to-own n bytes = rw (beq_refl n) (append-nil bytes)

pub sent_to-other :
    (n : ℕ) (e : ExtConn) (bytes : List ℕ) → e ≢ tcp_ext n → sent_to n ((e, bytes) ∷ []) ≡ []
unfolding sent_to
sent_to-other n (udp_ext m addr) bytes ne = refl
sent_to-other n (tcp_ext m) bytes ne = rw (beq_ne m n (λ q. ne (ap tcp_ext q))) refl

pub sent_to-silent :
    (n : ℕ) (log log' : List (ExtConn × List ℕ)) → log' ≡ log ++ [] → sent_to n log' ≡ sent_to n log
sent_to-silent n log log' e = ap (sent_to n) (e ∙ append-nil log)
