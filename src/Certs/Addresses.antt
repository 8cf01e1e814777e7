-- ===== src/Certs/Addresses.antt =====
-- The addresses of the certificate.
use taildog.Prelude.{
  refl, ap, sym, ◌∙◌, String, Bool, true, false, ◌||◌, string_key, ◌==◌, ◌≡◌, inl, inr, Option,
  none, some, List, [], ◌∷◌, ◌++◌, Bool-cases, arith,
}
use taildog.Certs.{Ip, contains, loopbacks, add_ip, add_addrs, add_interfaces, local_ips}

pub texts : List Ip → List String
texts [] = []
texts (ip ∷ ips) = ip.text ∷ texts ips

-- Every text stands once.
pub AllDistinct : List String → Type 0
AllDistinct [] = Unit
AllDistinct (s ∷ ss) = (contains ss s ≡ false) × AllDistinct ss

-- The map holds the texts of the list, which are distinct.
record Tracks (acc : List String × List Ip) : Type 0 where
  same : (s : String) → contains acc.0 s ≡ contains (texts acc.1) s
  distinct : AllDistinct (texts acc.1)

contains-snoc :
    (ss : List String) (t s : String) → contains (ss ++ t ∷ []) s ≡ (t == s || contains ss s)
contains-snoc [] t s = ground arith
contains-snoc (x ∷ ss) t s = ground (arith, contains-snoc ss t s)

texts-snoc : (ips : List Ip) (ip : Ip) → texts (ips ++ ip ∷ []) ≡ texts ips ++ ip.text ∷ []
unfolding texts
texts-snoc [] ip = refl
texts-snoc (x ∷ ips) ip = ap (λ r. x.text ∷ r) (texts-snoc ips ip)

or_false : (b c : Bool) → (b || c) ≡ false → c ≡ false
or_false false c h = h
or_false true c h = absurd (ground (arith, h))

AllDistinct-snoc :
    (ss : List String) (t : String)
    → AllDistinct ss
    → contains ss t ≡ false
    → AllDistinct (ss ++ t ∷ [])
unfolding AllDistinct
AllDistinct-snoc [] t d f = (refl, tt)
AllDistinct-snoc (x ∷ ss) t (fresh, d) f = (
  ground (arith, contains-snoc ss t x, fresh, f, string_key.same_iff x t, string_key.same_iff t x),
  AllDistinct-snoc ss t d (ground (arith, f)),
)

add_ip-Tracks : (ip : Ip) (acc : List String × List Ip) → Tracks acc → Tracks (add_ip ip acc)
unfolding add_ip
add_ip-Tracks ip (seen, ips) t = elim (Bool-cases (ip.is_loopback || contains seen ip.text)) [
  | inl y ↦ rw (add_ip, y) t
  | inr f ↦
      let new : contains (texts ips) ip.text ≡ false =
        sym (t.same ip.text) ∙ or_false ip.is_loopback _ f in
      rw (add_ip, f)
        (record {
          same = λ s.
              ap (λ b. ip.text == s || b) (t.same s)
              ∙ sym (contains-snoc (texts ips) ip.text s)
              ∙ ap (λ ss. contains ss s) (sym (texts-snoc ips ip));
          distinct = rw (texts-snoc ips ip) (AllDistinct-snoc (texts ips) ip.text t.distinct new);
        })
]

add_addrs-Tracks :
    (addrs : List (Option Ip)) (acc : List String × List Ip)
    → Tracks acc
    → Tracks (add_addrs addrs acc)
unfolding add_addrs
add_addrs-Tracks [] acc t = t
add_addrs-Tracks (none ∷ addrs) acc t = add_addrs-Tracks addrs acc t
add_addrs-Tracks (some ip ∷ addrs) acc t =
    add_addrs-Tracks addrs (add_ip ip acc) (add_ip-Tracks ip acc t)

add_interfaces-Tracks :
    (faces : List (Option (List (Option Ip)))) (acc : List String × List Ip)
    → Tracks acc
    → Tracks (add_interfaces faces acc)
unfolding add_interfaces
add_interfaces-Tracks [] acc t = t
add_interfaces-Tracks (none ∷ faces) acc t = add_interfaces-Tracks faces acc t
add_interfaces-Tracks (some addrs ∷ faces) acc t =
    add_interfaces-Tracks faces (add_addrs addrs acc) (add_addrs-Tracks addrs acc t)

-- No address stands twice in the certificate, by its text.
pub local_ips-AllDistinct :
    (faces : Option (List (Option (List (Option Ip))))) → AllDistinct (texts (local_ips faces))
unfolding local_ips AllDistinct texts
local_ips-AllDistinct none = (refl, (refl, tt))
local_ips-AllDistinct (some faces) =
    (add_interfaces-Tracks faces ("127.0.0.1" ∷ "::1" ∷ [], loopbacks)
      (record { same = λ s. refl; distinct = (refl, (refl, tt)) })).distinct
