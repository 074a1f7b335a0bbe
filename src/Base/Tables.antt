-- ===== src/Base/Tables.antt =====
-- Rows of a table as lists: what a WHERE, an UPDATE and an ORDER BY do.
use mathlib.Core.Path.{◌≡◌, refl, subst, ap, ◌∙◌}
use Prim.Native.Nat.{suc, ◌≤◌}
use mathlib.Core.Logic.{◌⊎◌, inl, inr}
use mathlib.Core.Bool.{Bool, true}
use mathlib.Core.List.{List, [], ◌∷◌}
use mathlib.Core.Option.{Option, none, some}
use native.Mathlib.Omega.{arith}
use message_boy.Base.Tests.{if◌then◌else◌, if_case, Bool-cases}
use message_boy.Base.Lists.{All, length}

module _ {ℓ} {A : Type ℓ} where
  unfoldable pub find : (A → Bool) → List A → Option A
  find p [] = none
  find p (x ∷ xs) = if p x then some x else find p xs

  unfoldable pub filter : (A → Bool) → List A → List A
  filter p [] = []
  filter p (x ∷ xs) = if p x then x ∷ filter p xs else filter p xs

  unfoldable pub update_where : (A → Bool) → (A → A) → List A → List A
  update_where p f [] = []
  update_where p f (x ∷ xs) = (if p x then f x else x) ∷ update_where p f xs

  -- Insertion into a sorted list, before what is not smaller: the sort is stable.
  unfoldable pub insert_sorted : (A → A → Bool) → A → List A → List A
  insert_sorted leq x [] = x ∷ []
  insert_sorted leq x (y ∷ ys) = if leq x y then x ∷ y ∷ ys else y ∷ insert_sorted leq x ys

  unfoldable pub order_by : (A → A → Bool) → List A → List A
  unfolding insert_sorted
  order_by leq [] = []
  order_by leq (x ∷ xs) = insert_sorted leq x (order_by leq xs)

module _ {A : Type 0} where
  abbrev pub IsPreorder : (A → A → Bool) → Type 0
  IsPreorder leq =
      ((x y : A) → (leq x y ≡ true) ⊎ (leq y x ≡ true))
      × ((x y z : A) → leq x y ≡ true → leq y z ≡ true → leq x z ≡ true)

  -- The first of the list is no larger than any of the others' elements.
  abbrev pub IsLeast : (A → A → Bool) → List A → List A → Type 0
  IsLeast leq xs [] = xs ≡ []
  IsLeast leq xs (y ∷ ys) = All (λ x. leq y x ≡ true) xs

  All-weaken :
      (leq : A → A → Bool) (x z : A) (xs : List A)
      → IsPreorder leq
      → leq x z ≡ true
      → All (λ y. leq z y ≡ true) xs
      → All (λ y. leq x y ≡ true) xs
  All-weaken leq x z [] pre h hs = tt
  All-weaken leq x z (y ∷ xs) pre h hs = (pre.1 x z y h hs.0, All-weaken leq x z xs pre h hs.1)

  leq_refl : (leq : A → A → Bool) (x : A) → IsPreorder leq → leq x x ≡ true
  leq_refl leq x pre = elim (pre.0 x x) [ inl h ↦ h | inr h ↦ h ]

  insert_sorted-IsLeast :
      (leq : A → A → Bool) (x : A) (xs l : List A)
      → IsPreorder leq
      → IsLeast leq xs l
      → IsLeast leq (x ∷ xs) (insert_sorted leq x l)
  unfolding insert_sorted
  insert_sorted-IsLeast leq x xs [] pre h = rw h (leq_refl leq x pre, tt)
  insert_sorted-IsLeast leq x xs (z ∷ zs) pre h = elim (Bool-cases (leq x z)) [
    | inl le ↦ rw le (leq_refl leq x pre, All-weaken leq x z xs pre le h)
    | inr gt ↦ rw gt (elim (pre.0 x z) [ inl le ↦ absurd (cc) | inr le ↦ le ], h)
  ]

  -- The first row of an ordered table is no larger than any row.
  pub order_by-IsLeast :
      (leq : A → A → Bool) (xs : List A) → IsPreorder leq → IsLeast leq xs (order_by leq xs)
  unfolding order_by
  order_by-IsLeast leq [] pre = refl
  order_by-IsLeast leq (x ∷ xs) pre =
      insert_sorted-IsLeast leq x xs (order_by leq xs) pre (order_by-IsLeast leq xs pre)

-- An update that keeps a test finds the same row under it, updated where the update meant it.
pub find-update_where {ℓ} :
    {A : Type ℓ} (p q : A → Bool) (f : A → A) (xs : List A) (x : A)
    → ((a : A) → q (f a) ≡ q a)
    → find q xs ≡ some x
    → find q (update_where p f xs) ≡ some (if p x then f x else x)
unfolding find update_where
find-update_where p q f [] x keep e = absurd (cc)
find-update_where p q f (y ∷ ys) x keep e =
    ground (arith, keep y, find-update_where p q f ys x keep)

-- What is found passes the test.
pub find_sound {ℓ} :
    {A : Type ℓ} (q : A → Bool) (xs : List A) (x : A) → find q xs ≡ some x → q x ≡ true
unfolding find
find_sound q [] x e = absurd (cc)
find_sound q (y ∷ ys) x e = ground (arith, find_sound q ys x)

-- The rows of a table that a test or an update of rows leaves.
pub All-filter {ℓ κ} :
    {A : Type ℓ} (P : A → Type κ) (q : A → Bool) (xs : List A) → All P xs → All P (filter q xs)
unfolding filter
All-filter P q [] h = tt
All-filter P q (x ∷ xs) h =
    if_case (All P) (q x) _ _ (h.0, All-filter P q xs h.1) (All-filter P q xs h.1)

pub All-update_where {ℓ κ} :
    {A : Type ℓ} (P : A → Type κ) (q : A → Bool) (f : A → A) (xs : List A)
    → ((a : A) → P a → P (f a))
    → All P xs
    → All P (update_where q f xs)
unfolding update_where
All-update_where P q f [] keep h = tt
All-update_where P q f (x ∷ xs) keep h =
    (if_case P (q x) _ _ (keep x h.0) h.0, All-update_where P q f xs keep h.1)

pub All-find {ℓ κ} :
    {A : Type ℓ} (P : A → Type κ) (q : A → Bool) (xs : List A) {x : A}
    → All P xs
    → find q xs ≡ some x
    → P x
unfolding find
All-find P q [] h e = absurd (cc)
All-find P q (y ∷ ys) {x} h e = elim (Bool-cases (q y)) [
  | inl hit ↦ let same : y ≡ x = ground arith in subst P same h.0
  | inr other ↦ All-find P q ys h.1 (ground arith)
]

-- Ordering keeps the number of rows, and a test leaves no more.
pub length-insert_sorted :
    {A : Type 0} (leq : A → A → Bool) (x : A) (xs : List A)
    → length (insert_sorted leq x xs) ≡ suc (length xs)
unfolding insert_sorted
length-insert_sorted leq x [] = refl
length-insert_sorted {A = A} leq x (y ∷ ys) =
    if_case (λ (l : List A). length l ≡ suc (suc (length ys))) (leq x y) _ _ refl
      (ap suc (length-insert_sorted leq x ys))

pub length-order_by :
    {A : Type 0} (leq : A → A → Bool) (xs : List A) → length (order_by leq xs) ≡ length xs
unfolding order_by
length-order_by leq [] = refl
length-order_by leq (x ∷ xs) =
    length-insert_sorted leq x (order_by leq xs) ∙ ap suc (length-order_by leq xs)

pub length-filter : {A : Type 0} (q : A → Bool) (xs : List A) → length (filter q xs) ≤ length xs
unfolding filter
length-filter q [] = omega arith
length-filter {A = A} q (x ∷ xs) =
    let rest = length-filter q xs in
    if_case (λ (l : List A). length l ≤ suc (length xs)) (q x) (x ∷ filter q xs) (filter q xs)
      (omega (arith, rest)) (omega (arith, rest))
