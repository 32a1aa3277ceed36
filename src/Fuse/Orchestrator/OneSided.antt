-- ===== src/Fuse/Orchestrator/OneSided.antt =====
-- Merge where theirs has the symbols of base.
use grove_suite.Prelude.{
  ◌≡◌, refl, ap, ◌∙◌, Bool, true, false, not, ◌||◌, if◌then◌else◌, some, List, [], ◌∷◌, Text,
  text_eq, text_eq_iff, arith, inl, inr, Bool-cases, Map, insert, member, distinct, is_empty,
  text_eq_sym,
}
use grove_suite.Fuse.Data.{SymbolData, SymbolConflict}
use grove_suite.Fuse.Symbols.{keys_of, insert_all, symbols_to_map, symbol_merge}
use grove_suite.Fuse.Symbols.OneSided.{symbol_merge_unchanged}
use grove_suite.Fuse.Orchestrator.{
  IntelliMerge, Extracted, MergeResult, is_config, merged_symbols, merge_extracted,
  merge_parsed_sides, merge_changed, merge,
}

member-insert :
    (j k : Text) (s : SymbolData) (m : Map SymbolData)
    → member j (keys_of (insert k s m)) ≡ (text_eq k j || member j (keys_of m))
unfolding member insert
member-insert j k s [] = refl
member-insert j k s ((i, t) ∷ m) = elim (Bool-cases (text_eq i k)) [
  | inl h ↦ rw h (ground (arith, text_eq_iff i k, text_eq_iff i j, text_eq_iff k j, h))
  | inr h ↦ rw h (ground (arith, member-insert j k s m))
]

distinct-insert :
    (k : Text) (s : SymbolData) (m : Map SymbolData)
    → distinct (keys_of m) ≡ true
    → distinct (keys_of (insert k s m)) ≡ true
unfolding member insert
distinct-insert k s [] h = refl
distinct-insert k s ((i, t) ∷ m) h = elim (Bool-cases (text_eq i k)) [
  | inl same ↦
      rw same (ground (arith, ap (λ j. member j (keys_of m)) ((text_eq_iff i k).0 same), h))
  | inr other ↦
      rw other
        (ground (arith, member-insert i k s m, distinct-insert k s m, text_eq_sym k i, other, h))
]

distinct-insert_all :
    (ss : List SymbolData) (m : Map SymbolData)
    → distinct (keys_of m) ≡ true
    → distinct (keys_of (insert_all ss m)) ≡ true
unfolding insert_all
distinct-insert_all [] m h = h
distinct-insert_all (s ∷ ss) m h =
    distinct-insert_all ss (insert s.qualified_name s m) (distinct-insert s.qualified_name s m h)

-- The keys of the map of a list of symbols are distinct.
distinct-symbols_to_map : (ss : List SymbolData) → distinct (keys_of (symbols_to_map ss)) ≡ true
unfolding symbols_to_map
distinct-symbols_to_map ss = distinct-insert_all ss [] refl

-- The merge reports no conflict.
abbrev pub IsClean : MergeResult → Type 0
IsClean r = (r.has_conflict ≡ false) × (r.conflicts ≡ [])

IsClean-if : (c : Bool) (x y : MergeResult) → IsClean x → IsClean y → IsClean (if c then x else y)
IsClean-if true x y p q = p
IsClean-if false x y p q = q

module _ (im : IntelliMerge) (file lang : Text) where
  no_clash :
      (b o t : Extracted)
      → t.symbols ≡ b.symbols
      → (merged_symbols im file lang b o t).conflicts ≡ []
  no_clash b o t same =
      let base = symbols_to_map b.symbols in
      let ours = symbols_to_map o.symbols in
      ap (λ ss. (symbol_merge base ours (symbols_to_map ss)).conflicts) same
      ∙ (symbol_merge_unchanged base ours (distinct-symbols_to_map b.symbols)
          (distinct-symbols_to_map o.symbols)).1

  merge_extracted-IsClean :
      (ours : Text) (b o t : Extracted)
      → t.symbols ≡ b.symbols
      → IsClean (merge_extracted im file lang ours b o t)
  unfolding merge_extracted
  merge_extracted-IsClean ours b o t same =
      let none_left = no_clash b o t same in
      (ap (λ (cs : List SymbolConflict). not (is_empty cs)) none_left, none_left)

  merge_changed-IsClean :
      (base ours theirs : Text) (b o t : Extracted)
      → is_config lang ≡ false
      → im.is_supported lang ≡ true
      → im.extract lang base ≡ some b
      → im.extract lang ours ≡ some o
      → im.extract lang theirs ≡ some t
      → t.symbols ≡ b.symbols
      → IsClean (merge_changed im file lang base ours theirs)
  unfolding merge_changed merge_parsed_sides
  merge_changed-IsClean base ours theirs b o t code known eb eo et same =
      rw (code, known, eb, eo, et) (merge_extracted-IsClean ours b o t same)

  -- Where the three versions of a source file parse and theirs has the symbols that base has, Merge
  -- reports no conflict, whatever ours and the imports have become.
  pub merge-IsClean :
      (base ours theirs : Text) (b o t : Extracted)
      → is_config lang ≡ false
      → im.is_supported lang ≡ true
      → im.extract lang base ≡ some b
      → im.extract lang ours ≡ some o
      → im.extract lang theirs ≡ some t
      → t.symbols ≡ b.symbols
      → IsClean (merge im file lang base ours theirs)
  unfolding merge
  merge-IsClean base ours theirs b o t code known eb eo et same =
      IsClean-if (text_eq ours theirs) _ _ (refl, refl)
        (IsClean-if (text_eq base ours) _ _ (refl, refl)
          (IsClean-if (text_eq base theirs) _ _ (refl, refl)
            (merge_changed-IsClean base ours theirs b o t code known eb eo et same)))
