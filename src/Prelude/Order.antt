-- ===== src/Prelude/Order.antt =====
-- `Array.prototype.sort` with a numeric comparator: a stable sort, as insertion of each element
-- behind those that are not above it.
use Prim.Native.Nat.{ℕ, suc, ◌≤◌}
use mathlib.Core.Path.{◌≡◌, refl, ap, ◌∙◌}
use mathlib.Core.Logic.{inl, inr}
use mathlib.Core.List.{List, [], ◌∷◌, Perm}
use mathlib.Core.List.Perm
use native.Mathlib.Omega.{arith}
use automated_cross_contract.Prelude.Tests.{leb, nat_eq, leb→le, Bool-cases, if◌then◌else◌}
use automated_cross_contract.Prelude.Lists.{length, All, filter_b}

module _ {ℓ} {A : Type ℓ} (key : A → ℕ) where
  -- `x` stood before all of the list, so it goes before its equals.
  abbrev pub insert_by : A → List A → List A
  insert_by x [] = x ∷ []
  insert_by x (y ∷ ys) = if leb (key x) (key y) then x ∷ y ∷ ys else y ∷ insert_by x ys

  abbrev pub sort_by : List A → List A
  sort_by [] = []
  sort_by (x ∷ xs) = insert_by x (sort_by xs)

  abbrev pub IsSorted : List A → Type 0
  IsSorted [] = Unit
  IsSorted (x ∷ xs) = All (λ y. key x ≤ key y) xs × IsSorted xs

  All-insert {κ} : (P : A → Type κ) (x : A) (xs : List A) → P x → All P xs → All P (insert_by x xs)
  All-insert P x [] p h = (p, tt)
  All-insert P x (y ∷ ys) p (q, h) = ground (arith, All-insert P x ys p h)

  pub All-sort {κ} : (P : A → Type κ) (xs : List A) → All P xs → All P (sort_by xs)
  All-sort P [] h = tt
  All-sort P (x ∷ xs) (p, h) = All-insert P x (sort_by xs) p (All-sort P xs h)

  All-le_trans : (a b : ℕ) (ys : List A) → a ≤ b → All (λ y. b ≤ key y) ys → All (λ y. a ≤ key y) ys
  All-le_trans a b [] h k = tt
  All-le_trans a b (y ∷ ys) h (p, k) = (omega arith, All-le_trans a b ys h k)

  insert-IsSorted : (x : A) (xs : List A) → IsSorted xs → IsSorted (insert_by x xs)
  insert-IsSorted x [] h = (tt, tt)
  insert-IsSorted x (y ∷ ys) (p, h) = elim (Bool-cases (leb (key x) (key y))) [
    | inl le ↦ rw le ((leb→le _ _ le, All-le_trans (key x) (key y) ys (leb→le _ _ le) p), (p, h))
    | inr gt ↦ rw gt (All-insert (λ z. key y ≤ key z) x ys (ground arith) p, insert-IsSorted x ys h)
  ]

  pub sort-IsSorted : (xs : List A) → IsSorted (sort_by xs)
  sort-IsSorted [] = tt
  sort-IsSorted (x ∷ xs) = insert-IsSorted x (sort_by xs) (sort-IsSorted xs)

  length-insert : (x : A) (xs : List A) → length (insert_by x xs) ≡ suc (length xs)
  length-insert x [] = refl
  length-insert x (y ∷ ys) = ground (arith, length-insert x ys)

  pub length-sort : (xs : List A) → length (sort_by xs) ≡ length xs
  length-sort [] = refl
  length-sort (x ∷ xs) = length-insert x (sort_by xs) ∙ ap suc (length-sort xs)

  -- the elements of one key
  abbrev pub with_key : ℕ → List A → List A
  with_key k = filter_b (λ x. nat_eq (key x) k)

  with_key-insert :
      (k : ℕ) (x : A) (xs : List A) → with_key k (insert_by x xs) ≡ with_key k (x ∷ xs)
  with_key-insert k x [] = refl
  with_key-insert k x (y ∷ ys) = ground (arith, with_key-insert k x ys)

  -- The sort is stable: the elements of one key keep their order.
  pub with_key-sort : (k : ℕ) (xs : List A) → with_key k (sort_by xs) ≡ with_key k xs
  with_key-sort k [] = refl
  with_key-sort k (x ∷ xs) = with_key-insert k x (sort_by xs) ∙ ground (arith, with_key-sort k xs)

  insert-Perm : (x : A) (xs : List A) → Perm (insert_by x xs) (x ∷ xs)
  insert-Perm x [] = Perm.refl _
  insert-Perm x (y ∷ ys) = elim (Bool-cases (leb (key x) (key y))) [
    | inl le ↦ rw le (Perm.refl _)
    | inr gt ↦ rw gt (Perm.trans (Perm.cons y (insert-Perm x ys)) (Perm.swap x y ys))
  ]

  pub sort-Perm : (xs : List A) → Perm (sort_by xs) xs
  sort-Perm [] = Perm.refl _
  sort-Perm (x ∷ xs) = Perm.trans (insert-Perm x (sort_by xs)) (Perm.cons x (sort-Perm xs))
