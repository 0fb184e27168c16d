-- ===== src/Signing/Order.antt =====
-- `sort` and `sort_by_key` on text keys: the order of the bytes, and a stable sort.
use object_storage_proxy.Base.{
  ◌≡◌, refl, ap, ◌∙◌, Bool, true, false, ◌&&◌, ◌||◌, List, [], ◌∷◌, map, arith, ltb, ◌==◌,
  if◌then◌else◌, Bytes,
}

-- a <= b
abbrev pub text_le : Bytes → Bytes → Bool
text_le [] b = true
text_le (c ∷ a) [] = false
text_le (c ∷ a) (d ∷ b) = ltb c d || (c == d && text_le a b)

module _ {A : Type 0} (key : A → Bytes) where
  unfoldable pub insert_by : A → List A → List A
  insert_by x [] = x ∷ []
  insert_by x (y ∷ ys) =
      let later = y ∷ insert_by x ys in if text_le (key x) (key y) then x ∷ y ∷ ys else later

  unfoldable pub sort_by : List A → List A
  unfolding insert_by
  sort_by [] = []
  sort_by (x ∷ xs) = insert_by x (sort_by xs)

unfoldable pub sort : List Bytes → List Bytes
unfolding sort_by
sort = sort_by (λ x. x)

module _ {A : Type 0} (key : A → Bytes) where
  map-insert_by :
      (x : A) (ys : List A) → map key (insert_by key x ys) ≡ insert_by (λ k. k) (key x) (map key ys)
  unfolding insert_by
  map-insert_by x [] = refl
  map-insert_by x (y ∷ ys) = ground (arith, map-insert_by x ys)

  -- Sorting items by their keys and taking the keys is sorting the keys.
  pub map-sort_by : (xs : List A) → map key (sort_by key xs) ≡ sort (map key xs)
  unfolding sort_by sort
  map-sort_by [] = refl
  map-sort_by (x ∷ xs) =
      map-insert_by x (sort_by key xs) ∙ ap (insert_by (λ k. k) (key x)) (map-sort_by xs)
