-- ===== src/Db/AuditLog.antt =====
-- GetAuditLog: the newest entries first.
use mathlib.Core.List.{Perm}
use mathlib.Core.List.Perm
use taildog.Prelude.{ℕ, ◌≤◌, ◌≡◌, inl, inr, List, [], ◌∷◌, arith, Bool-cases, ltb, take, ok}
use taildog.Db.{Db, AuditEntry, get_audit_log}
use taildog.Db.Rows.{insert_desc, sort_desc}

module _ {A : Type 0} (key : A → ℕ) where
  -- Keys do not grow along the list.
  abbrev pub IsDescending : List A → Type 0
  IsDescending [] = Unit {0}
  IsDescending (x ∷ []) = Unit {0}
  IsDescending (x ∷ y ∷ ys) = (key y ≤ key x) × IsDescending (y ∷ ys)

  insert_desc-perm : (x : A) (xs : List A) → Perm (insert_desc key x xs) (x ∷ xs)
  unfolding insert_desc
  insert_desc-perm x [] = Perm.refl (x ∷ [])
  insert_desc-perm x (y ∷ ys) = elim (Bool-cases (ltb (key x) (key y))) [
    | inl t ↦ rw t (Perm.trans (Perm.cons y (insert_desc-perm x ys)) (Perm.swap x y ys))
    | inr f ↦ rw f (Perm.refl (x ∷ y ∷ ys))
  ]

  pub sort_desc-perm : (xs : List A) → Perm (sort_desc key xs) xs
  unfolding sort_desc
  sort_desc-perm [] = Perm.refl []
  sort_desc-perm (x ∷ xs) =
      Perm.trans (insert_desc-perm x (sort_desc key xs)) (Perm.cons x (sort_desc-perm xs))

  -- An element at the front of a list whose first key is not larger.
  IsDescending-cons :
      (y : A) (x : A) (ys : List A)
      → IsDescending (y ∷ ys)
      → key x ≤ key y
      → IsDescending (insert_desc key x ys)
      → IsDescending (y ∷ insert_desc key x ys)
  unfolding insert_desc
  IsDescending-cons y x [] d h i = (h, tt)
  IsDescending-cons y x (z ∷ zs) d h i = elim (Bool-cases (ltb (key x) (key z))) [
    | inl t ↦ rw t (d.0, rw t at i)
    | inr f ↦ rw f (h, rw f at i)
  ]

  IsDescending-tail : (y : A) (ys : List A) → IsDescending (y ∷ ys) → IsDescending ys
  IsDescending-tail y [] d = tt
  IsDescending-tail y (z ∷ zs) d = d.1

  insert_desc-IsDescending :
      (x : A) (xs : List A) → IsDescending xs → IsDescending (insert_desc key x xs)
  unfolding insert_desc
  insert_desc-IsDescending x [] d = tt
  insert_desc-IsDescending x (y ∷ ys) d = elim (Bool-cases (ltb (key x) (key y))) [
    | inl t ↦ rw t (
        IsDescending-cons y x ys d (ground arith)
          (insert_desc-IsDescending x ys (IsDescending-tail y ys d)))
    | inr f ↦ rw f (ground arith, d)
  ]

  pub sort_desc-IsDescending : (xs : List A) → IsDescending (sort_desc key xs)
  unfolding sort_desc
  sort_desc-IsDescending [] = tt
  sort_desc-IsDescending (x ∷ xs) =
      insert_desc-IsDescending x (sort_desc key xs) (sort_desc-IsDescending xs)

abbrev pub time : AuditEntry → ℕ
time e = e.timestamp

-- With no driver error GetAuditLog returns the first `limit` rows of some arrangement of the whole
-- table in which timestamps never grow.
pub get_audit_log_newest :
    (d : Db) (limit : ℕ)
    → d.faults ≡ []
    → (rows : List AuditEntry) × Perm rows d.audit_log
      × IsDescending time rows
      × ((get_audit_log limit d).0 ≡ ok (take limit rows))
get_audit_log_newest d limit e = (
  sort_desc time d.audit_log,
  sort_desc-perm time d.audit_log,
  sort_desc-IsDescending time d.audit_log,
  unfold get_audit_log in ground arith,
)
