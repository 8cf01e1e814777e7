-- ===== src/Db/Tokens.antt =====
-- Refresh tokens and users: what is found after it was stored, and what is gone after a delete.
use taildog.Prelude.{
  sym, ap, ◌∙◌, refl, ◌≡◌, ◌≢◌, ◌↔◌, inl, inr, String, Bool, true, not, string_key, ◌==◌, none,
  some, List, [], ◌∷◌, ◌++◌, arith, if◌then◌else◌, eq_iff, Bool-cases, ok, keep, In,
}
use taildog.Db.{Db, RefreshToken, User, has_hash, has_id, get_refresh_token, delete_refresh_token}
use taildog.Db.Rows.{find, update}

module _ {A : Type 0} (f : A → Bool) where
  pub find-append :
      (xs : List A) (x : A) → find f xs ≡ none → f x ≡ true → find f (xs ++ x ∷ []) ≡ some x
  unfolding find
  find-append [] x n t = rw t
  find-append (y ∷ ys) x n t = ground (arith, find-append ys x)

  -- A row that is found stands in the table and fits.
  pub find-In : (xs : List A) (x : A) → find f xs ≡ some x → In x xs × (f x ≡ true)
  unfolding find
  find-In [] x e = cc
  find-In (y ∷ ys) x e = elim (Bool-cases (f y)) [
    | inl t ↦
        let s : y ≡ x = cc (let q : some y ≡ some x = rw t at e in q) in (inl (sym s), rw (← s) t)
    | inr n ↦ let (i, g) = find-In ys x (rw n at e) in (inr i, g)
  ]

  pub In-keep_rows : (xs : List A) (x : A) → In x (keep f xs) → In x xs × (f x ≡ true)
  In-keep_rows [] x i = elim i [ ]
  In-keep_rows (y ∷ ys) x i = elim (Bool-cases (f y)) [
    | inl t ↦ kept t (In-keep_rows ys x) (rw t at i)
    | inr n ↦ let (j, g) = In-keep_rows ys x (rw n at i) in (inr j, g)
  ]
    where
      kept :
          f y ≡ true
          → (In x (keep f ys) → In x ys × (f x ≡ true))
          → In x (y ∷ keep f ys)
          → In x (y ∷ ys) × (f x ≡ true)
      kept t ih (inl e) = (inl e, rw e t)
      kept t ih (inr j) = (inr (ih j).0, (ih j).1)

-- A row that an UPDATE by id changed is found by its id with the change.
pub find_id-update :
    (id : String) (f : User → User)
    → ((x : User) → (f x).id ≡ x.id)
    → (us : List User) (u : User) → find (has_id id) us ≡ some u
    → find (has_id id) (update (has_id id) f us) ≡ some (f u)
unfolding find update
find_id-update id f keeps [] u e = cc
find_id-update id f keeps (x ∷ xs) u e = elim (Bool-cases (has_id id x)) [
  | inl t ↦
      let same : some x ≡ some u = rw t at e in
      let fits : has_id id (f x) ≡ true = ap (λ n. n == id) (keeps x) ∙ t in
      rw (t, find, fits) (cc same)
  | inr n ↦ rw (n, find, n) (find_id-update id f keeps xs u (rw n at e))
]

find_hash-keep :
    (h k : String) (xs : List RefreshToken)
    → find (has_hash k) (keep (λ r. not (has_hash h r)) xs)
      ≡ (if h == k then none else find (has_hash k) xs)
unfolding find
find_hash-keep h k [] = ground arith
find_hash-keep h k (x ∷ xs) =
    ground (arith, find_hash-keep h k xs, eq_iff h k, eq_iff x.token_hash h, eq_iff x.token_hash k)

module _ (d : Db) (none_fail : d.faults ≡ []) where
  -- Without a driver error, DeleteRefreshToken takes the tokens of that hash away and leaves what
  -- is found under any other.
  pub get_refresh_token-delete :
      (h k : String)
      → (get_refresh_token k (delete_refresh_token h d).1).0
        ≡ (if h == k then ok none else (get_refresh_token k d).0)
  unfolding get_refresh_token delete_refresh_token
  get_refresh_token-delete h k =
      rw none_fail (rw (find_hash-keep h k d.refresh_tokens) (ground arith))

In-keep :
    {A : Type 0} (f : A → Bool) (xs : List A) (x : A) → In x xs → f x ≡ true → In x (keep f xs)
In-keep f [] x i g = i
In-keep f (y ∷ ys) x (inl e) g = rw (← e, g) (inl refl)
In-keep f (y ∷ ys) x (inr i) g = elim (Bool-cases (f y)) [
  | inl t ↦ rw t (inr (In-keep f ys x i g))
  | inr n ↦ rw n (In-keep f ys x i g)
]

-- The rows that DeleteAllRefreshTokens leaves are those of other users.
pub others_kept :
    (user_id : String) (row : RefreshToken) (rows : List RefreshToken)
    → In row (keep (λ r. not (r.user_id == user_id)) rows) ↔ (In row rows × (row.user_id ≢ user_id))
others_kept user_id row rows =
    let others : RefreshToken → Bool = λ r. not (r.user_id == user_id) in
    (
      λ i.
          let (j, g) = In-keep_rows others rows row i in
          (j, λ e. ground (arith, g, eq_iff row.user_id user_id)),
      λ h.
          let (j, ne) = h in
          In-keep others rows row j (ground (arith, ne, eq_iff row.user_id user_id)),
    )
