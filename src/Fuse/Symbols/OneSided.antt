-- ===== src/Fuse/Symbols/OneSided.antt =====
-- SymbolMerge of symbol.go where theirs has not changed base.
use grove_suite.Prelude.{
  ◌≡◌, refl, sym, ap, ap₂, ◌∙◌, true, false, not, inl, inr, List, [], ◌∷◌, ◌++◌, Option, none, some,
  arith, All, keep_if, Text, text_eq_iff, Map, lookup, member, distinct, Bool-cases, and_right,
  append-nil, append_assoc,
}
use grove_suite.Prelude.Sorts.{place, sort_stable}
use grove_suite.Fuse.Data.{SymbolData}
use grove_suite.Fuse.ThreeWay.{three_way_symbol}
use grove_suite.Fuse.Symbols.{
  Entry, outcome, decide_key, entry_less, keys_of, append_ordered, ordered_keys, symbol_merge,
}
use grove_suite.Fuse.Symbols.Keys.{has_key, member-append_ordered}
use grove_suite.Fuse.Symbols.Loop.{emitted_by, clashes_by, symbol_merge-decides}

abbrev pub values_of : List Entry → List SymbolData
values_of [] = []
values_of ((k, s) ∷ es) = s ∷ values_of es

abbrev listed : Option SymbolData → List SymbolData
listed none = []
listed (some s) = s ∷ []

module _ (base ours : Map SymbolData) where
  -- Against an unchanged side every key is decided for ours.
  decide_key-unchanged :
      (k : Text)
      → let r = decide_key base ours base k in
        (r.emitted ≡ listed (lookup k ours)) × (r.clashes ≡ [])
  unfolding decide_key
  decide_key-unchanged k = go (lookup k base) (lookup k ours)
    where
      go :
          (b o : Option SymbolData)
          → let r = outcome k b o b (three_way_symbol b o b) in
            (r.emitted ≡ listed o) × (r.clashes ≡ [])
      go none none = (refl, refl)
      go none (some o) = (refl, refl)
      go (some b) none = ground (arith, text_eq_iff b.body b.body)
      go (some b) (some o) = ground (arith, text_eq_iff o.body b.body, text_eq_iff b.body b.body)

  abbrev Found : Entry → Type 0
  Found e = lookup e.0 ours ≡ some e.1

  emitted_by-Found :
      (es : List Entry)
      → All Found es
      → emitted_by (decide_key base ours base) (keys_of es) ≡ values_of es
  emitted_by-Found [] h = refl
  emitted_by-Found ((k, s) ∷ es) h =
      ap₂ ◌++◌ ((decide_key-unchanged k).0 ∙ ap listed h.0) (emitted_by-Found es h.1)

  emitted_by-missing :
      (ks : List Text)
      → All (λ k. lookup k ours ≡ none) ks
      → emitted_by (decide_key base ours base) ks ≡ []
  emitted_by-missing [] h = refl
  emitted_by-missing (k ∷ ks) h =
      ap₂ ◌++◌ ((decide_key-unchanged k).0 ∙ ap listed h.0) (emitted_by-missing ks h.1)

  clashes_by-none : (ks : List Text) → clashes_by (decide_key base ours base) ks ≡ []
  clashes_by-none [] = refl
  clashes_by-none (k ∷ ks) = ap₂ ◌++◌ (decide_key-unchanged k).1 (clashes_by-none ks)

  emitted_by-append :
      (ks js : List Text)
      → emitted_by (decide_key base ours base) (ks ++ js)
        ≡ emitted_by (decide_key base ours base) ks ++ emitted_by (decide_key base ours base) js
  emitted_by-append [] js = refl
  emitted_by-append (k ∷ ks) js =
      ap (◌++◌ (decide_key base ours base k).emitted) (emitted_by-append ks js)
      ∙ sym (append_assoc (decide_key base ours base k).emitted _ _)

All-place :
    (P : Entry → Type 0) (e : Entry) (es : List Entry)
    → P e
    → All P es
    → All P (place entry_less e es)
unfolding place
All-place P e [] p h = (p, tt)
All-place P e (x ∷ es) p h = elim (Bool-cases (entry_less x e)) [
  | inl l ↦ rw l (h.0, All-place P e es p h.1)
  | inr l ↦ rw l (p, h)
]

All-sort_stable :
    (P : Entry → Type 0) (es : List Entry) → All P es → All P (sort_stable entry_less es)
unfolding sort_stable
All-sort_stable P [] h = tt
All-sort_stable P (e ∷ es) h = All-place P e _ h.0 (All-sort_stable P es h.1)

lookup-missing : (k : Text) (m : Map SymbolData) → has_key k m ≡ false → lookup k m ≡ none
unfolding lookup member
lookup-missing k [] h = refl
lookup-missing k ((j, s) ∷ m) h = ground (arith, lookup-missing k m)

Found-tail :
    (k : Text) (v : SymbolData) (m es : Map SymbolData)
    → has_key k es ≡ false
    → All (Found [] m) es
    → All (Found [] ((k, v) ∷ m)) es
unfolding member lookup
Found-tail k v m [] h a = tt
Found-tail k v m ((j, s) ∷ es) h a =
    (ground (arith, text_eq_iff k j, text_eq_iff j k, a.0), Found-tail k v m es (ground arith) a.1)

-- In a map without repeated keys every entry is found.
entries-Found : (m : Map SymbolData) → distinct (keys_of m) ≡ true → All (Found [] m) m
unfolding lookup
entries-Found [] d = tt
entries-Found ((k, v) ∷ m) d = (
  ground (arith, text_eq_iff k k),
  Found-tail k v m m (ground arith) (entries-Found m (and_right (not (member k (keys_of m))) _ d)),
)

-- The entries whose keys are not yet out are not in ours.
kept_missing :
    (ours : Map SymbolData) (out : List Text) (es : List Entry)
    → ((k : Text) → member k out ≡ false → has_key k ours ≡ false)
    → All (λ e. lookup e.0 ours ≡ none) (keep_if (λ (e : Entry). not (member e.0 out)) es)
kept_missing ours out [] h = tt
kept_missing ours out ((k, s) ∷ es) h = elim (Bool-cases (member k out)) [
  | inl i ↦ rw i (kept_missing ours out es h)
  | inr i ↦ rw i (lookup-missing k ours (h k i), kept_missing ours out es h)
]

All-keys_of :
    (P : Text → Type 0) (es : List Entry) → All (λ (e : Entry). P e.0) es → All P (keys_of es)
All-keys_of P [] h = tt
All-keys_of P ((k, s) ∷ es) h = (h.0, All-keys_of P es h.1)

append_ordered-missing :
    (base ours : Map SymbolData) (out : List Text) (m : Map SymbolData)
    → ((k : Text) → member k out ≡ false → has_key k ours ≡ false)
    → emitted_by (decide_key base ours base) (append_ordered out m)
      ≡ emitted_by (decide_key base ours base) out
unfolding append_ordered
append_ordered-missing base ours out m h =
    emitted_by-append base ours out _
    ∙ ap (◌++◌ (emitted_by (decide_key base ours base) out)) (
        emitted_by-missing base ours _ (
          All-keys_of _ _
            (All-sort_stable (λ e. lookup e.0 ours ≡ none) _ (kept_missing ours out m h))))
    ∙ append-nil _

keep_if_fresh : (es : List Entry) → keep_if (λ (e : Entry). not (member e.0 [])) es ≡ es
unfolding member
keep_if_fresh [] = refl
keep_if_fresh (e ∷ es) = ap (◌∷◌ e) (keep_if_fresh es)

first_ordered :
    (base ours : Map SymbolData)
    → distinct (keys_of ours) ≡ true
    → emitted_by (decide_key base ours base) (append_ordered [] ours)
      ≡ values_of (sort_stable entry_less ours)
unfolding append_ordered
first_ordered base ours e =
    rw (keep_if_fresh ours)
      (emitted_by-Found base ours _ (All-sort_stable (Found base ours) _ (entries-Found ours e)))

decides_ours :
    (base ours : Map SymbolData)
    → distinct (keys_of ours) ≡ true
    → emitted_by (decide_key base ours base) (ordered_keys ours base base)
      ≡ values_of (sort_stable entry_less ours)
unfolding ordered_keys
decides_ours base ours e =
    append_ordered-missing base ours (append_ordered (append_ordered [] ours) base) base later_cover
    ∙ append_ordered-missing base ours (append_ordered [] ours) base outs_cover
    ∙ first_ordered base ours e
  where
    outs_cover : (k : Text) → member k (append_ordered [] ours) ≡ false → has_key k ours ≡ false
    outs_cover k h = ground (arith, member-append_ordered k [] ours)

    later_cover :
        (k : Text)
        → member k (append_ordered (append_ordered [] ours) base) ≡ false
        → has_key k ours ≡ false
    later_cover k h =
        outs_cover k (ground (arith, member-append_ordered k (append_ordered [] ours) base))

-- SymbolMerge with a theirs that is base returns the symbols of ours, whole, by their first lines
-- (by key on the same line), and reports no conflict; hypotheses: no map holds a key twice.
pub symbol_merge_unchanged :
    (base ours : Map SymbolData)
    → distinct (keys_of base) ≡ true
    → distinct (keys_of ours) ≡ true
    → ((symbol_merge base ours base).merged ≡ values_of (sort_stable entry_less ours))
      × ((symbol_merge base ours base).conflicts ≡ [])
symbol_merge_unchanged base ours d e =
    let m = symbol_merge-decides base ours base d e d in
    (m.0 ∙ decides_ours base ours e, m.1 ∙ clashes_by-none base ours (ordered_keys ours base base))
