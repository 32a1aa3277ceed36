-- ===== src/Fuse/Symbols/Keys.antt =====
-- orderedKeys of symbol.go: the union of the three maps' keys.
use grove_suite.Prelude.{
  ◌≡◌, refl, ap, ap₂, ◌∙◌, Bool, true, false, not, ◌&&◌, ◌||◌, inl, inr, List, [], ◌∷◌, ◌++◌, arith,
  keep_if, Text, text_eq, text_eq_iff, Map, member, distinct, text_eq_sym, Bool-cases, and_right,
}
use grove_suite.Prelude.Sorts.{place, sort_stable}
use grove_suite.Fuse.Data.{SymbolData}
use grove_suite.Fuse.Symbols.{Entry, entry_less, keys_of, append_ordered, ordered_keys}

abbrev pub has_key : Text → Map SymbolData → Bool
has_key k m = member k (keys_of m)

pub member-append :
    (k : Text) (xs ys : List Text) → member k (xs ++ ys) ≡ (member k xs || member k ys)
unfolding member
member-append k [] ys = refl
member-append k (x ∷ xs) ys = ground (arith, member-append k xs ys)

member-place :
    (k : Text) (e : Entry) (es : List Entry)
    → member k (keys_of (place entry_less e es)) ≡ member k (keys_of (e ∷ es))
unfolding member place
member-place k (j, s) [] = refl
member-place k (j, s) ((i, t) ∷ es) = elim (Bool-cases (entry_less (i, t) (j, s))) [
  | inl h ↦ rw h (ground (arith, member-place k (j, s) es))
  | inr h ↦ rw h refl
]

member-sort_stable :
    (k : Text) (es : List Entry)
    → member k (keys_of (sort_stable entry_less es)) ≡ member k (keys_of es)
unfolding member sort_stable
member-sort_stable k [] = refl
member-sort_stable k ((j, s) ∷ es) =
    member-place k (j, s) (sort_stable entry_less es)
    ∙ (unfold member in ap (λ b. text_eq j k || b) (member-sort_stable k es))

member-keep_if :
    (k : Text) (out : List Text) (es : List Entry)
    → member k (keys_of (keep_if (λ (e : Entry). not (member e.0 out)) es))
      ≡ (member k (keys_of es) && not (member k out))
unfolding member
member-keep_if k out [] = refl
member-keep_if k out ((j, s) ∷ es) = elim (Bool-cases (member j out)) [
  | inl h ↦ rw h (ground (arith, member-keep_if k out es, text_eq_iff j k))
  | inr h ↦ rw h (ground (arith, member-keep_if k out es, text_eq_iff j k))
]

pub member-append_ordered :
    (k : Text) (out : List Text) (m : Map SymbolData)
    → member k (append_ordered out m) ≡ (member k out || has_key k m)
unfolding append_ordered
member-append_ordered k out m =
    rw
      (
        member-append k out
            (keys_of (sort_stable entry_less (keep_if (λ (e : Entry). not (member e.0 out)) m))),
        member-sort_stable k (keep_if (λ (e : Entry). not (member e.0 out)) m),
        member-keep_if k out m,
      )
      (ground arith)

-- orderedKeys yields exactly the keys of the three maps.
pub member-ordered_keys :
    (k : Text) (m n l : Map SymbolData)
    → member k (ordered_keys m n l) ≡ (has_key k m || (has_key k n || has_key k l))
unfolding ordered_keys member
member-ordered_keys k m n l = ground (
  arith,
  member-append_ordered k (append_ordered (append_ordered [] m) n) l,
  member-append_ordered k (append_ordered [] m) n,
  member-append_ordered k [] m,
)

distinct-place :
    (e : Entry) (es : List Entry)
    → distinct (keys_of (place entry_less e es)) ≡ distinct (keys_of (e ∷ es))
unfolding place member
distinct-place (j, s) [] = refl
distinct-place (j, s) ((i, t) ∷ es) = elim (Bool-cases (entry_less (i, t) (j, s))) [
  | inl h ↦
      rw h (ground (arith, distinct-place (j, s) es, member-place i (j, s) es, text_eq_sym i j))
  | inr h ↦ rw h refl
]

distinct-sort_stable :
    (es : List Entry) → distinct (keys_of (sort_stable entry_less es)) ≡ distinct (keys_of es)
unfolding sort_stable
distinct-sort_stable [] = refl
distinct-sort_stable ((j, s) ∷ es) =
    distinct-place (j, s) (sort_stable entry_less es)
    ∙ ap₂ (λ a b. not a && b) (member-sort_stable j es) (distinct-sort_stable es)

distinct-keep_if :
    (out : List Text) (es : List Entry)
    → distinct (keys_of es) ≡ true
    → distinct (keys_of (keep_if (λ (e : Entry). not (member e.0 out)) es)) ≡ true
distinct-keep_if out [] h = refl
distinct-keep_if out ((j, s) ∷ es) h =
    ground (arith, distinct-keep_if out es, member-keep_if j out es)

distinct-append :
    (xs ys : List Text)
    → distinct xs ≡ true
    → distinct ys ≡ true
    → ((k : Text) → member k xs ≡ true → member k ys ≡ false)
    → distinct (xs ++ ys) ≡ true
distinct-append [] ys d e h = e
distinct-append (x ∷ xs) ys d e h =
    let here : member x ys ≡ false = h x (unfold member in ground (arith, text_eq_iff x x)) in
    ground (
      arith,
      member-append x xs ys,
      distinct-append xs ys (and_right (not (member x xs)) (distinct xs) d) e
          (λ k m. h k (unfold member in ground arith)),
    )

distinct-append_ordered :
    (out : List Text) (m : Map SymbolData)
    → distinct out ≡ true
    → distinct (keys_of m) ≡ true
    → distinct (append_ordered out m) ≡ true
unfolding append_ordered
distinct-append_ordered out m d e =
    distinct-append out _ d
      (distinct-sort_stable (keep_if (λ (e : Entry). not (member e.0 out)) m)
        ∙ distinct-keep_if out m e)
      (λ k h. ground (
        arith,
        member-sort_stable k (keep_if (λ (e : Entry). not (member e.0 out)) m),
        member-keep_if k out m,
      ))

-- No key stands twice, where none does in any of the maps.
pub distinct-ordered_keys :
    (m n l : Map SymbolData)
    → distinct (keys_of m) ≡ true
    → distinct (keys_of n) ≡ true
    → distinct (keys_of l) ≡ true
    → distinct (ordered_keys m n l) ≡ true
unfolding ordered_keys
distinct-ordered_keys m n l d e f =
    distinct-append_ordered _ l
      (distinct-append_ordered _ n (distinct-append_ordered [] m refl d) e) f
