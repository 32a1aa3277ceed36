-- ===== src/Fuse/Imports/Union.antt =====
-- ImportMerge of imports.go: what the merged imports hold.
use grove_suite.Prelude.{
  ◌≡◌, refl, ap, ap₂, ◌∙◌, Bool, true, false, not, ◌&&◌, ◌||◌, inl, inr, List, [], ◌∷◌, ◌++◌,
  Option, none, some, arith, if◌then◌else◌, keep_if, Text, text_eq, text_eq_iff, text_eq_sym,
  member, distinct, Bool-cases, and_right,
}
use grove_suite.Prelude.Sorts.{place, sort_stable}
use grove_suite.Fuse.Data.{ImportStatement}
use grove_suite.Fuse.Imports.{path_set, kept_paths, unseen, import_less, import_merge}

-- The first import of a path.
unfoldable pub find : Text → List ImportStatement → Option ImportStatement
find p [] = none
find p (i ∷ is) = if text_eq i.path p then some i else find p is

abbrev pub or_else : Option ImportStatement → Option ImportStatement → Option ImportStatement
or_else (some i) o = some i
or_else none o = o

member-keep_if :
    (q : Text → Bool) (k : Text) (ps : List Text) → member k (keep_if q ps) ≡ (member k ps && q k)
unfolding member
member-keep_if q k [] = refl
member-keep_if q k (p ∷ ps) = elim (Bool-cases (q p)) [
  | inl h ↦ rw h (ground (arith, member-keep_if q k ps, text_eq_iff p k))
  | inr h ↦ rw h (ground (arith, member-keep_if q k ps, text_eq_iff p k))
]

member-append : (k : Text) (xs ys : List Text) → member k (xs ++ ys) ≡ (member k xs || member k ys)
unfolding member
member-append k [] ys = refl
member-append k (x ∷ xs) ys = ground (arith, member-append k xs ys)

-- Nothing of ours or theirs is dropped.
member-kept_paths :
    (k : Text) (base ours theirs : List ImportStatement)
    → member k (kept_paths base ours theirs)
      ≡ (member k (path_set ours) || member k (path_set theirs))
unfolding kept_paths
member-kept_paths k base ours theirs = ground (
  arith,
  member-keep_if
      (λ p. not (
        member p (
          keep_if (λ p. not (member p (path_set ours)) && not (member p (path_set theirs)))
            (path_set base))))
      k (path_set ours ++ path_set theirs),
  member-keep_if (λ p. not (member p (path_set ours)) && not (member p (path_set theirs))) k
      (path_set base),
  member-append k (path_set ours) (path_set theirs),
)

abbrev pub paths_of : List ImportStatement → List Text
paths_of [] = []
paths_of (i ∷ is) = i.path ∷ paths_of is

member-path_set :
    (k : Text) (is : List ImportStatement) → member k (path_set is) ≡ member k (paths_of is)
unfolding path_set member
member-path_set k [] = refl
member-path_set k (i ∷ is) = elim (Bool-cases (member i.path (path_set is))) [
  | inl h ↦ rw h (ground (arith, member-path_set k is, text_eq_iff i.path k))
  | inr h ↦ rw h (ground (arith, member-path_set k is))
]

-- Where every path is kept, a loop takes the first import of each path not yet seen.
unseen_lem :
    (keep seen : List Text) (is : List ImportStatement) (p : Text)
    → ((k : Text) → member k (paths_of is) ≡ true → member k keep ≡ true)
    → let (out, seen') = unseen keep seen is in
      (find p out ≡ (if member p seen then none else find p is))
      × (member p seen' ≡ (member p seen || member p (paths_of is)))
      × (member p (paths_of out) ≡ (not (member p seen) && member p (paths_of is)))
      × (distinct (paths_of out) ≡ true)
unfolding unseen find member
unseen_lem keep seen [] p h = ground arith
unseen_lem keep seen (i ∷ is) p h =
    let kept : member i.path keep ≡ true = h i.path (ground (arith, text_eq_iff i.path i.path)) in
    let later : (k : Text) → member k (paths_of is) ≡ true → member k keep ≡ true =
      λ k m. h k (ground arith) in
    elim (Bool-cases (member i.path seen)) [
      | inl s ↦
          (let ih = unseen_lem keep seen is p later in
            rw (kept, s)
              (
                ground (arith, ih.0, text_eq_iff i.path p),
                ground (arith, ih.1, text_eq_iff i.path p),
                ground (arith, ih.2, text_eq_iff i.path p),
                ih.3,
              ))
      | inr s ↦
          (let ih = unseen_lem keep (i.path ∷ seen) is p later in
            let here = unseen_lem keep (i.path ∷ seen) is i.path later in
            rw (kept, s)
              (
                ground (arith, ih.0, text_eq_iff i.path p),
                ground (arith, ih.1, text_eq_iff i.path p),
                ground (arith, ih.2, text_eq_iff i.path p),
                ground (arith, ih.3, here.2, text_eq_iff i.path i.path),
              ))
    ]

find-place :
    (p : Text) (i : ImportStatement) (is : List ImportStatement)
    → member i.path (paths_of is) ≡ false
    → (find p (place import_less i is) ≡ find p (i ∷ is))
unfolding place find member
find-place p i [] h = refl
find-place p i (j ∷ is) h = elim (Bool-cases (import_less j i)) [
  | inl l ↦ rw l (
      ground (
        arith,
        find-place p i is (ground arith),
        text_eq_iff i.path p,
        text_eq_iff j.path p,
        text_eq_iff j.path i.path,
      ))
  | inr l ↦ rw l refl
]

member-place :
    (p : Text) (i : ImportStatement) (is : List ImportStatement)
    → member p (paths_of (place import_less i is)) ≡ member p (paths_of (i ∷ is))
unfolding place member
member-place p i [] = refl
member-place p i (j ∷ is) = elim (Bool-cases (import_less j i)) [
  | inl l ↦ rw l (ground (arith, member-place p i is))
  | inr l ↦ rw l refl
]

member-sort_stable :
    (p : Text) (is : List ImportStatement)
    → member p (paths_of (sort_stable import_less is)) ≡ member p (paths_of is)
unfolding sort_stable member
member-sort_stable p [] = refl
member-sort_stable p (i ∷ is) =
    member-place p i (sort_stable import_less is)
    ∙ ap (λ b. text_eq i.path p || b) (member-sort_stable p is)

find-sort_stable :
    (p : Text) (is : List ImportStatement)
    → distinct (paths_of is) ≡ true
    → find p (sort_stable import_less is) ≡ find p is
unfolding sort_stable find
find-sort_stable p [] d = refl
find-sort_stable p (i ∷ is) d =
    find-place p i (sort_stable import_less is) (ground (arith, member-sort_stable i.path is))
    ∙ ap (λ o. if text_eq i.path p then some i else o)
        (find-sort_stable p is (and_right (not (member i.path (paths_of is))) _ d))

distinct-place :
    (i : ImportStatement) (is : List ImportStatement)
    → distinct (paths_of (place import_less i is)) ≡ distinct (paths_of (i ∷ is))
unfolding place member
distinct-place i [] = refl
distinct-place i (j ∷ is) = elim (Bool-cases (import_less j i)) [
  | inl l ↦
      rw l
        (ground (arith, distinct-place i is, member-place j.path i is, text_eq_sym i.path j.path))
  | inr l ↦ rw l refl
]

distinct-sort_stable :
    (is : List ImportStatement)
    → distinct (paths_of (sort_stable import_less is)) ≡ distinct (paths_of is)
unfolding sort_stable
distinct-sort_stable [] = refl
distinct-sort_stable (i ∷ is) =
    distinct-place i (sort_stable import_less is)
    ∙ ap₂ (λ a b. not a && b) (member-sort_stable i.path is) (distinct-sort_stable is)

find-append :
    (p : Text) (is js : List ImportStatement) → find p (is ++ js) ≡ or_else (find p is) (find p js)
unfolding find
find-append p [] js = refl
find-append p (i ∷ is) js = ground (arith, find-append p is js)

find-missing :
    (p : Text) (is : List ImportStatement) → member p (paths_of is) ≡ false → find p is ≡ none
unfolding find member
find-missing p [] h = refl
find-missing p (i ∷ is) h = ground (arith, find-missing p is)

find-member :
    (p : Text) (is : List ImportStatement)
    → member p (paths_of is) ≡ true
    → (i : ImportStatement) × (find p is ≡ some i)
unfolding find member
find-member p [] h = cc
find-member p (i ∷ is) h = elim (Bool-cases (text_eq i.path p)) [
  | inl e ↦ rw e (i, refl)
  | inr e ↦ rw e (find-member p is (ground arith))
]

paths-append :
    (k : Text) (xs ys : List ImportStatement)
    → member k (paths_of (xs ++ ys)) ≡ (member k (paths_of xs) || member k (paths_of ys))
unfolding member
paths-append k [] ys = refl
paths-append k (x ∷ xs) ys = ground (arith, paths-append k xs ys)

distinct-append :
    (xs ys : List ImportStatement)
    → distinct (paths_of xs) ≡ true
    → distinct (paths_of ys) ≡ true
    → ((k : Text) → member k (paths_of xs) ≡ true → member k (paths_of ys) ≡ false)
    → distinct (paths_of (xs ++ ys)) ≡ true
unfolding member
distinct-append [] ys d e h = e
distinct-append (x ∷ xs) ys d e h = ground (
  arith,
  paths-append x.path xs ys,
  h x.path,
  text_eq_iff x.path x.path,
  distinct-append xs ys (and_right (not (member x.path (paths_of xs))) _ d) e
      (λ k m. h k (ground arith)),
)

-- Before the final sort: the two loops one after the other.
module _ (base ours theirs : List ImportStatement) (p : Text) where
  abbrev keep : List Text
  keep = kept_paths base ours theirs

  abbrev first : List ImportStatement × List Text
  first = unseen keep [] ours

  abbrev second : List ImportStatement × List Text
  second = unseen keep first.1 theirs

  keeps_ours : (k : Text) → member k (paths_of ours) ≡ true → member k keep ≡ true
  keeps_ours k h = ground (arith, member-kept_paths k base ours theirs, member-path_set k ours)

  keeps_theirs : (k : Text) → member k (paths_of theirs) ≡ true → member k keep ≡ true
  keeps_theirs k h = ground (
    arith,
    member-kept_paths k base ours theirs,
    member-path_set k ours,
    member-path_set k theirs,
  )

  apart : (k : Text) → member k (paths_of first.0) ≡ true → member k (paths_of second.0) ≡ false
  apart k h =
      ground
        (arith, unseen_lem keep [] ours k keeps_ours, unseen_lem keep first.1 theirs k keeps_theirs)

  composed_distinct : distinct (paths_of (first.0 ++ second.0)) ≡ true
  composed_distinct =
      distinct-append first.0 second.0 (unseen_lem keep [] ours p keeps_ours).3
        (unseen_lem keep first.1 theirs p keeps_theirs).3 apart

  composed_find : find p (first.0 ++ second.0) ≡ or_else (find p ours) (find p theirs)
  unfolding member
  composed_find =
      let f = unseen_lem keep [] ours p keeps_ours in
      let s = unseen_lem keep first.1 theirs p keeps_theirs in
      elim (Bool-cases (member p (paths_of ours))) [
        | inl h ↦
            (let (i, found) = find-member p ours h in
              ground (arith, f.0, found, find-append p first.0 second.0))
        | inr h ↦
            ground (arith, f.0, f.1, s.0, find-missing p ours h, find-append p first.0 second.0)
      ]

-- ImportMerge keeps exactly the imports of ours and theirs: no path stands twice, and of each path
-- the merged import is the first one of ours, or the first one of theirs where ours has none.
pub import_merge_union :
    (base ours theirs : List ImportStatement) (p : Text)
    → let m = (import_merge base ours theirs).merged in
      (find p m ≡ or_else (find p ours) (find p theirs)) × (distinct (paths_of m) ≡ true)
unfolding import_merge
import_merge_union base ours theirs p =
    let d = composed_distinct base ours theirs p in
    (find-sort_stable p _ d ∙ composed_find base ours theirs p, distinct-sort_stable _ ∙ d)
