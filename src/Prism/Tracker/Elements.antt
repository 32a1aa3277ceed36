-- ===== src/Prism/Tracker/Elements.antt =====
-- The list of tracker.go and its table: pointers and paths name the same elements.
use grove_suite.Prelude.{
  ℕ, zero, suc, ◌≡◌, refl, ap, Bool, true, false, not, ◌&&◌, ◌==◌, ltb, if◌then◌else◌, List, [],
  ◌∷◌, Option, none, some, length, take, Text, text_eq, text_eq_iff, text_eq_refl, arith,
}
use grove_suite.Prism.Tracker.{Entry, Element, deref, unlink, back}

abbrev pub files : List Element → List Entry
files [] = []
files (x ∷ xs) = x.value ∷ files xs

-- The entry of a path, and the entries without it.
abbrev pub seen : Text → List Entry → Option Entry
seen p [] = none
seen p (e ∷ es) = if text_eq e.file_path p then some e else seen p es

abbrev pub without : Text → List Entry → List Entry
without p [] = []
without p (e ∷ es) = let rest = without p es in if text_eq e.file_path p then es else e ∷ rest

abbrev pub number_at : Text → List Element → Option ℕ
number_at p [] = none
number_at p (x ∷ xs) = if text_eq x.value.file_path p then some x.number else number_at p xs

abbrev pub no_number : ℕ → List Element → Bool
no_number k [] = true
no_number k (x ∷ xs) = not (x.number == k) && no_number k xs

abbrev pub no_path : Text → List Element → Bool
no_path p [] = true
no_path p (x ∷ xs) = not (text_eq x.value.file_path p) && no_path p xs

-- No number and no path stands twice.
abbrev pub linked : List Element → Bool
linked [] = true
linked (x ∷ xs) = no_number x.number xs && (no_path x.value.file_path xs && linked xs)

abbrev pub below : ℕ → List Element → Bool
below n [] = true
below n (x ∷ xs) = ltb x.number n && below n xs

number_at-no_number :
    (p : Text) (k : ℕ) (xs : List Element) → no_number k xs ≡ true → (number_at p xs ≡ some k) → ⊥
number_at-no_number p k [] n e = cc
number_at-no_number p k (x ∷ xs) n e = ground (arith, number_at-no_number p k xs)

number_at-no_path : (p : Text) (xs : List Element) → no_path p xs ≡ true → number_at p xs ≡ none
number_at-no_path p [] n = refl
number_at-no_path p (x ∷ xs) n = ground (arith, number_at-no_path p xs)

pub no_path-of_none : (p : Text) (xs : List Element) → number_at p xs ≡ none → no_path p xs ≡ true
no_path-of_none p [] n = refl
no_path-of_none p (x ∷ xs) n = ground (arith, no_path-of_none p xs)

pub seen-number_at-none :
    (p : Text) (xs : List Element) → number_at p xs ≡ none → seen p (files xs) ≡ none
seen-number_at-none p [] n = refl
seen-number_at-none p (x ∷ xs) n = ground (arith, seen-number_at-none p xs)

pub number_at-seen-none :
    (p : Text) (xs : List Element) → seen p (files xs) ≡ none → number_at p xs ≡ none
number_at-seen-none p [] n = refl
number_at-seen-none p (x ∷ xs) n = ground (arith, number_at-seen-none p xs)

pub without-number_at-none :
    (p : Text) (xs : List Element) → number_at p xs ≡ none → without p (files xs) ≡ files xs
without-number_at-none p [] n = refl
without-number_at-none p (x ∷ xs) n = ground (arith, without-number_at-none p xs)

pub below-no_number : (n : ℕ) (xs : List Element) → below n xs ≡ true → no_number n xs ≡ true
below-no_number n [] b = refl
below-no_number n (x ∷ xs) b = ground (arith, below-no_number n xs)

pub below-suc : (n : ℕ) (xs : List Element) → below n xs ≡ true → below (suc n) xs ≡ true
below-suc n [] b = refl
below-suc n (x ∷ xs) b = ground (arith, below-suc n xs)

pub seen-file_path : (p : Text) (es : List Entry) (e : Entry) → seen p es ≡ some e → e.file_path ≡ p
seen-file_path p [] e s = cc
seen-file_path p (x ∷ es) e s = ground (arith, text_eq_iff x.file_path p, seen-file_path p es e)

module _ (p : Text) (k : ℕ) where
  pub deref-number_at :
      (xs : List Element)
      → linked xs ≡ true
      → number_at p xs ≡ some k
      → deref k xs ≡ seen p (files xs)
  unfolding deref
  deref-number_at [] l n = cc
  deref-number_at (x ∷ xs) l n = ground (arith, deref-number_at xs, number_at-no_number p k xs)

  pub files-unlink :
      (xs : List Element)
      → linked xs ≡ true
      → number_at p xs ≡ some k
      → files (unlink k xs) ≡ without p (files xs)
  unfolding unlink
  files-unlink [] l n = cc
  files-unlink (x ∷ xs) l n = ground (arith, files-unlink xs, number_at-no_number p k xs)

  pub number_at-unlink :
      (q : Text) (xs : List Element)
      → linked xs ≡ true
      → number_at p xs ≡ some k
      → number_at q (unlink k xs) ≡ (if text_eq p q then none else number_at q xs)
  unfolding unlink
  number_at-unlink q [] l n = cc
  number_at-unlink q (x ∷ xs) l n = ground (
    arith,
    number_at-unlink q xs,
    number_at-no_number p k xs,
    number_at-no_path q xs,
    text_eq_iff x.value.file_path p,
    text_eq_iff x.value.file_path q,
    text_eq_iff p q,
  )

module _ (k : ℕ) where
  pub no_number-unlink :
      (j : ℕ) (xs : List Element) → no_number j xs ≡ true → no_number j (unlink k xs) ≡ true
  unfolding unlink
  no_number-unlink j [] n = refl
  no_number-unlink j (x ∷ xs) n = ground (arith, no_number-unlink j xs)

  pub no_path-unlink :
      (p : Text) (xs : List Element) → no_path p xs ≡ true → no_path p (unlink k xs) ≡ true
  unfolding unlink
  no_path-unlink p [] n = refl
  no_path-unlink p (x ∷ xs) n = ground (arith, no_path-unlink p xs)

  pub linked-unlink : (xs : List Element) → linked xs ≡ true → linked (unlink k xs) ≡ true
  unfolding unlink
  linked-unlink [] l = refl
  linked-unlink (x ∷ xs) l =
      ground
        (arith, linked-unlink xs, no_number-unlink x.number xs, no_path-unlink x.value.file_path xs)

  pub below-unlink : (n : ℕ) (xs : List Element) → below n xs ≡ true → below n (unlink k xs) ≡ true
  unfolding unlink
  below-unlink n [] b = refl
  below-unlink n (x ∷ xs) b = ground (arith, below-unlink n xs)

  pub no_number-unlink_self :
      (xs : List Element) → linked xs ≡ true → no_number k (unlink k xs) ≡ true
  unfolding unlink
  no_number-unlink_self [] l = refl
  no_number-unlink_self (x ∷ xs) l = ground (arith, no_number-unlink_self xs)

pub length-unlink :
    (p : Text) (k : ℕ) (xs : List Element)
    → number_at p xs ≡ some k
    → suc (length (unlink k xs)) ≡ length xs
unfolding unlink
length-unlink p k [] n = cc
length-unlink p k (x ∷ xs) n = ground (arith, length-unlink p k xs)

pub below-number_at :
    (n : ℕ) (p : Text) (k : ℕ) (xs : List Element)
    → below n xs ≡ true
    → number_at p xs ≡ some k
    → ltb k n ≡ true
below-number_at n p k [] b e = cc
below-number_at n p k (x ∷ xs) b e = ground (arith, below-number_at n p k xs)

pub back-length :
    (xs : List Element) (n : ℕ) → length xs ≡ suc n → (el : Element) × (back xs ≡ some el)
unfolding back
back-length [] n s = absurd (ground (arith, s))
back-length (x ∷ []) n s = (x, refl)
back-length (x ∷ y ∷ xs) n s = back-length (y ∷ xs) (length xs) refl

-- What is at the back is in the list.
no_number-back :
    (k : ℕ) (xs : List Element) (el : Element)
    → back xs ≡ some el
    → no_number k xs ≡ true
    → (el.number == k) ≡ false
unfolding back
no_number-back k [] el b n = cc
no_number-back k (x ∷ []) el b n = ground (arith, b, n)
no_number-back k (x ∷ y ∷ xs) el b n = no_number-back k (y ∷ xs) el b (ground (arith, n))

no_path-back :
    (p : Text) (xs : List Element) (el : Element)
    → back xs ≡ some el
    → no_path p xs ≡ true
    → text_eq el.value.file_path p ≡ false
unfolding back
no_path-back p [] el b n = cc
no_path-back p (x ∷ []) el b n = ground (arith, b, n)
no_path-back p (x ∷ y ∷ xs) el b n = no_path-back p (y ∷ xs) el b (ground (arith, n))

pub number_at-back :
    (xs : List Element) (el : Element)
    → linked xs ≡ true
    → back xs ≡ some el
    → number_at el.value.file_path xs ≡ some el.number
unfolding back
number_at-back [] el l b = cc
number_at-back (x ∷ []) el l b = ground (arith, b, text_eq_refl el.value.file_path)
number_at-back (x ∷ y ∷ xs) el l b = ground (
  arith,
  number_at-back (y ∷ xs) el,
  no_path-back x.value.file_path (y ∷ xs) el,
  text_eq_iff x.value.file_path el.value.file_path,
  text_eq_iff el.value.file_path x.value.file_path,
)

pub files-unlink-back :
    (xs : List Element) (el : Element) (n : ℕ)
    → linked xs ≡ true
    → back xs ≡ some el
    → length xs ≡ suc n
    → files (unlink el.number xs) ≡ take n (files xs)
unfolding back unlink
files-unlink-back [] el n l b s = cc
files-unlink-back (x ∷ []) el zero l b s = ground (arith, b)
files-unlink-back (x ∷ []) el (suc n) l b s = absurd (ground (arith, s))
files-unlink-back (x ∷ y ∷ xs) el zero l b s = absurd (ground (arith, s))
files-unlink-back (x ∷ y ∷ xs) el (suc n) l b s =
    let apart : (x.number == el.number) ≡ false =
      ground (arith, no_number-back x.number (y ∷ xs) el b) in
    rw apart (
      ap (λ es. x.value ∷ es)
        (files-unlink-back (y ∷ xs) el n (ground (arith, l)) b (ground (arith, s))))
