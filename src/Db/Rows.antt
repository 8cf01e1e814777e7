-- ===== src/Db/Rows.antt =====
-- What SQL does to the rows of one table: SELECT of the first match, UPDATE ... WHERE, ORDER BY.
use taildog.Prelude.{ℕ, Bool, Option, none, some, List, [], ◌∷◌, if◌then◌else◌, ltb}

module _ {ℓ} {A : Type ℓ} where
  unfoldable pub find : (A → Bool) → List A → Option A
  find f [] = none
  find f (x ∷ xs) = if f x then some x else find f xs

  unfoldable pub update : (A → Bool) → (A → A) → List A → List A
  update f g [] = []
  update f g (x ∷ xs) = (if f x then g x else x) ∷ update f g xs

  -- Insertion sort by a key, largest first; equal keys keep their order.
  unfoldable pub insert_desc : (A → ℕ) → A → List A → List A
  insert_desc key x [] = x ∷ []
  insert_desc key x (y ∷ ys) = if ltb (key x) (key y) then y ∷ insert_desc key x ys else x ∷ y ∷ ys

  unfoldable pub sort_desc : (A → ℕ) → List A → List A
  unfolding insert_desc
  sort_desc key [] = []
  sort_desc key (x ∷ xs) = insert_desc key x (sort_desc key xs)
