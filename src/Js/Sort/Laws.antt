-- ===== src/Js/Sort/Laws.antt =====
-- Sorting by a key that is a natural number puts a permutation of an ascending list in order.
use mathlib.Core.Path.{ap₂}
use mathlib.Core.Logic.Or
use mathlib.Core.List.{Mem, Perm, Pairwise, Pairwise-singleton, mem-cons, mem-cons_self}
use mathlib.Core.List.Pairwise
use mathlib.Core.List.Perm
use native.Mathlib.Bridge.{le_prop}
use fizzbee_mbt_examples.Prelude.{
  ◌⊎◌, ℕ, ◌≤◌, ◌<◌, List, [], ◌∷◌, map, some, ◌≡◌, refl, arith, Bool-cases, inl, inr,
}
use fizzbee_mbt_examples.Prelude.Int.{pos}
use fizzbee_mbt_examples.Js.Numbers.{Number}
use fizzbee_mbt_examples.Js.Sort.{before, insert, sort}

module _ {A B : Type 0} (f : A → B) (key : B → Number) where
  insert-map :
      (x : A) (xs : List A) → insert key (f x) (map f xs) ≡ map f (insert (λ a. key (f a)) x xs)
  unfolding insert
  insert-map x [] = refl
  insert-map x (y ∷ ys) = elim (Bool-cases (before (key (f y)) (key (f x)))) [
    | inl h ↦ rw (h, insert-map x ys)
    | inr h ↦ rw h
  ]

  pub sort-map : (xs : List A) → sort key (map f xs) ≡ map f (sort (λ a. key (f a)) xs)
  unfolding sort
  sort-map [] = refl
  sort-map (x ∷ xs) = rw (sort-map xs) (insert-map x (sort (λ a. key (f a)) xs))

module _ {A : Type 0} (rank : A → ℕ) where
  abbrev pub by_rank : A → Number
  by_rank a = some (pos (rank a))

  abbrev pub IsSorted : List A → Type 0
  IsSorted = Pairwise (λ x y. rank x ≤ rank y)

  -- Strictly ascending: no two elements have one rank.
  abbrev pub IsAscending : List A → Type 0
  IsAscending = Pairwise (λ x y. rank x < rank y)

  abbrev IsBelow : A → List A → Type 0
  IsBelow a l = (x : A) → Mem x l → rank a ≤ rank x

  IsBelow-cons : {a b : A} {l : List A} → rank a ≤ rank b → IsBelow a l → IsBelow a (b ∷ l)
  IsBelow-cons p h x m = Or.elim le_prop (mem-cons.0 m) (λ e. rw e p) (h x)

  IsBelow-perm : {a : A} {l r : List A} → Perm l r → IsBelow a r → IsBelow a l
  IsBelow-perm p h x m = h x ((Perm.mem_iff p).0 m)

  IsBelow-head : {a b : A} {l : List A} → rank a ≤ rank b → IsSorted (b ∷ l) → IsBelow a (b ∷ l)
  IsBelow-head p (Pairwise.cons h _) = IsBelow-cons p λ x m. omega (arith, h x m)

  insert_cases :
      (x y : A) (ys : List A)
      → ((rank y < rank x) × (insert by_rank x (y ∷ ys) ≡ y ∷ insert by_rank x ys))
        ⊎ ((rank x ≤ rank y) × (insert by_rank x (y ∷ ys) ≡ x ∷ y ∷ ys))
  unfolding insert
  insert_cases x y ys = ground arith

  insert-perm : (x : A) (l : List A) → Perm (insert by_rank x l) (x ∷ l)
  insert-perm x [] = unfold insert in Perm.rfl
  insert-perm x (y ∷ ys) = elim (insert_cases x y ys) [
    | inl (_, e) ↦ rw e (Perm.trans (Perm.cons y (insert-perm x ys)) (Perm.swap x y ys))
    | inr (_, e) ↦ rw e Perm.rfl
  ]

  insert-IsSorted : (x : A) {l : List A} → IsSorted l → IsSorted (insert by_rank x l)
  insert-IsSorted x Pairwise.nil = unfold insert in Pairwise-singleton _ x
  insert-IsSorted x (Pairwise.cons {a = y} {l = ys} below s) = elim (insert_cases x y ys) [
    | inl (lt, e) ↦ rw e (
        Pairwise.cons (IsBelow-perm (insert-perm x ys) (IsBelow-cons (omega arith) below))
          (insert-IsSorted x s))
    | inr (le, e) ↦
        rw e (Pairwise.cons (IsBelow-head le (Pairwise.cons below s)) (Pairwise.cons below s))
  ]

  -- Sorting loses and adds nothing, and puts the keys in order.
  pub sort-perm : (l : List A) → Perm (sort by_rank l) l
  unfolding sort
  sort-perm [] = Perm.rfl
  sort-perm (x ∷ xs) = Perm.trans (insert-perm x (sort by_rank xs)) (Perm.cons x (sort-perm xs))

  pub sort-IsSorted : (l : List A) → IsSorted (sort by_rank l)
  unfolding sort
  sort-IsSorted [] = Pairwise.nil
  sort-IsSorted (x ∷ xs) = insert-IsSorted x (sort-IsSorted xs)

  IsAscending-head :
      {a b : A} {l : List A}
      → IsAscending (a ∷ l)
      → Mem b (a ∷ l)
      → rank b ≤ rank a
      → IsProp (b ≡ a)
      → b ≡ a
  IsAscending-head (Pairwise.cons h _) m le prop =
      Or.elim prop (mem-cons.0 m) (λ e. e) (λ k. absurd (omega (arith, h _ k)))

  -- A sorted permutation of an ascending list is that list.
  pub IsSorted-eq_of_perm : IsSet A → {l r : List A} → IsSorted l → IsAscending r → Perm l r → l ≡ r
  IsSorted-eq_of_perm set {l = []} _ _ p = Perm.nil-eq p
  IsSorted-eq_of_perm set {l = a ∷ l} {r = []} _ _ p = Perm.eq-nil p
  IsSorted-eq_of_perm set {l = a ∷ l} {r = b ∷ r} sl sr p =
      let le : rank a ≤ rank b =
        IsBelow-head (omega arith) sl b ((Perm.mem_iff p).1 mem-cons_self) in
      let heads : a ≡ b = IsAscending-head sr ((Perm.mem_iff p).0 mem-cons_self) le (set a b) in
      let tails = Perm.cons_inv (Perm.trans p (Perm.symm (Perm.cons' heads Perm.rfl))) in
      ap₂ ◌∷◌ heads
        (IsSorted-eq_of_perm set {l = l} (Pairwise.of_cons sl) (Pairwise.of_cons sr) tails)

  pub sort_of_perm : IsSet A → {l r : List A} → Perm l r → IsAscending r → sort by_rank l ≡ r
  sort_of_perm set {l} p s =
      IsSorted-eq_of_perm set (sort-IsSorted l) s (Perm.trans (sort-perm l) p)
