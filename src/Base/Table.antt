-- ===== src/Base/Table.antt =====
-- Tables as lists of rows, and the SQL statements that the stores issue on them.
use mathlib.Core.Path.{◌≡◌, refl}
use mathlib.Core.Bool.{Bool, true, false}
use mathlib.Core.Option
use mathlib.Core.Option.{Option, none, some}
use mathlib.Core.List.{List, [], ◌∷◌, ◌++◌}
use native.Mathlib.Omega.{arith}
use breckr.Base.Tests.{if◌then◌else◌, Bool-cases}
use breckr.Base.Lists.{length, In, All, any}
use mathlib.Core.Logic.{◌↔◌, ◌⊎◌, inl, inr}

module _ {ℓ} {A : Type ℓ} where
  -- `SELECT … WHERE p LIMIT 1`, in insertion order.
  unfoldable pub find : (A → Bool) → List A → Option A
  find p [] = none
  find p (x ∷ xs) = if p x then some x else find p xs

  -- `UPDATE … SET f WHERE p`.
  unfoldable pub update : (A → Bool) → (A → A) → List A → List A
  update p f [] = []
  update p f (x ∷ xs) = (if p x then f x else x) ∷ update p f xs

  -- `ORDER BY`: a stable insertion sort by a Boolean order.
  unfoldable pub insert_by : (A → A → Bool) → A → List A → List A
  insert_by le a [] = a ∷ []
  insert_by le a (x ∷ xs) = if le a x then a ∷ x ∷ xs else x ∷ insert_by le a xs

  unfoldable pub order_by : (A → A → Bool) → List A → List A
  unfolding insert_by
  order_by le [] = []
  order_by le (x ∷ xs) = insert_by le x (order_by le xs)

  abbrev pub on_match : (A → Bool) → (A → A) → A → A
  on_match p f x = if p x then f x else x

  -- A search after an update whose change the search does not see.
  pub find-update :
      (p q : A → Bool) (f : A → A)
      → ((a : A) → q (f a) ≡ q a)
      → (xs : List A) → find q (update p f xs) ≡ Option.map (on_match p f) (find q xs)
  unfolding find update
  find-update p q f keeps [] = refl
  find-update p q f keeps (x ∷ xs) = ground (arith, keeps x, find-update p q f keeps xs)

  pub length-update : (p : A → Bool) (f : A → A) (xs : List A) → length (update p f xs) ≡ length xs
  unfolding update
  length-update p f [] = refl
  length-update p f (x ∷ xs) = omega (arith, length-update p f xs)

  -- Appending a row: found last.
  pub find-append :
      (p : A → Bool) (xs : List A) (a : A)
      → find p xs ≡ none
      → find p (xs ++ a ∷ []) ≡ (if p a then some a else none)
  unfolding find
  find-append p [] a h = refl
  find-append p (x ∷ xs) a h = ground (arith, find-append p xs a)

  pub find-append_ne :
      (p : A → Bool) (xs : List A) (a : A) → p a ≡ false → find p (xs ++ a ∷ []) ≡ find p xs
  unfolding find
  find-append_ne p [] a h = rw h
  find-append_ne p (x ∷ xs) a h = ground (arith, find-append_ne p xs a h)

module _ {A : Type 0} (le : A → A → Bool) where
  insert_by-In : (a b : A) (xs : List A) → In b (insert_by le a xs) ↔ In b (a ∷ xs)
  unfolding insert_by
  insert_by-In a b [] = (λ i. i, λ i. i)
  insert_by-In a b (x ∷ xs) = elim (Bool-cases (le a x)) [
    | inl e ↦ rw (e, insert_by) (λ i. i, λ i. i)
    | inr e ↦ rw (e, insert_by) (go (insert_by-In a b xs))
  ]
    where
      go :
          In b (insert_by le a xs) ↔ In b (a ∷ xs)
          → ((b ≡ x) ⊎ In b (insert_by le a xs)) ↔ In b (a ∷ x ∷ xs)
      go h = (there, back)
        where
          there : (b ≡ x) ⊎ In b (insert_by le a xs) → In b (a ∷ x ∷ xs)
          there (inl q) = inr (inl q)
          there (inr i) = elim (h.0 i) [ inl q ↦ inl q | inr j ↦ inr (inr j) ]

          back : In b (a ∷ x ∷ xs) → (b ≡ x) ⊎ In b (insert_by le a xs)
          back (inl q) = inr (h.1 (inl q))
          back (inr (inl q)) = inl q
          back (inr (inr j)) = inr (h.1 (inr j))

  -- Sorting keeps the elements.
  pub order_by-In : (b : A) (xs : List A) → In b (order_by le xs) ↔ In b xs
  unfolding order_by
  order_by-In b [] = (λ i. i, λ i. i)
  order_by-In b (x ∷ xs) =
      let rest = order_by-In b xs in
      let one = insert_by-In x b (order_by le xs) in
      (
        λ i. elim (one.0 i) [ inl q ↦ inl q | inr j ↦ inr (rest.0 j) ],
        λ i. one.1 (elim i [ inl q ↦ inl q | inr j ↦ inr (rest.1 j) ]),
      )

module _ {ℓ} {A : Type ℓ} where
  pub find_sound : (p : A → Bool) (xs : List A) (a : A) → find p xs ≡ some a → p a ≡ true
  unfolding find
  find_sound p [] a h = cc
  find_sound p (x ∷ xs) a h = ground (arith, find_sound p xs a)

  -- A search for the rows that an update changes.
  pub find-update_self :
      (p : A → Bool) (f : A → A)
      → ((a : A) → p (f a) ≡ p a)
      → (xs : List A) → find p (update p f xs) ≡ Option.map f (find p xs)
  unfolding find update
  find-update_self p f keeps [] = refl
  find-update_self p f keeps (x ∷ xs) = ground (arith, keeps x, find-update_self p f keeps xs)

  -- After an update every row that matches has what the update gives.
  pub All-update {κ} :
      (Q : A → Type κ) (p : A → Bool) (f : A → A)
      → ((a : A) → p a ≡ true → Q (f a))
      → ((a : A) → p a ≡ false → Q a)
      → (xs : List A) → All Q (update p f xs)
  unfolding update
  All-update Q p f hit miss [] = tt
  All-update Q p f hit miss (x ∷ xs) = elim (Bool-cases (p x)) [
    | inl e ↦ (rw e (hit x e), All-update Q p f hit miss xs)
    | inr e ↦ (rw e (miss x e), All-update Q p f hit miss xs)
  ]

  pub find-any : (p : A → Bool) (xs : List A) (a : A) → find p xs ≡ some a → any p xs ≡ true
  unfolding find
  find-any p [] a h = cc
  find-any p (x ∷ xs) a h = ground (arith, find-any p xs a)
