-- ===== src/Fuse/Breaking/Reports.antt =====
-- Which exports the analysis of breaking changes reports.
use grove_suite.Prelude.{
  ◌≡◌, ◌⊎◌, ◌↔◌, inl, inr, refl, sym, ap, subst, ◌∙◌, Bool, true, false, List, [], ◌∷◌, Option,
  none, some, Text, Map, lookup, arith, Bool-cases,
}
use grove_suite.Prelude.Members.{Among}
use grove_suite.Fuse.Data.{SymbolData, BreakingChange}
use grove_suite.Fuse.Breaking.{
  Impacts, drifted, removed_export, signature_changed, change_of, changes_from, export_map, analyze,
}

-- A side has lost the export, or both have it and all three signatures are different.
abbrev pub is_broken : SymbolData → Option SymbolData → Option SymbolData → Bool
is_broken b none theirs = true
is_broken b (some o) none = true
is_broken b (some o) (some t) = drifted b.signature o.signature t.signature

-- A change on the symbol is in the list.
abbrev pub Reported : Text → List BreakingChange → Type 0
Reported key cs = (c : BreakingChange) × Among c cs × (c.symbol ≡ key)

module _ (quoted : Text → Text) (grove : Impacts) (file_path : Text) where
  change_of_cases :
      (key : Text) (b : SymbolData) (o t : Option SymbolData)
      → ((is_broken b o t ≡ true)
          × ((c : BreakingChange) × (change_of quoted grove file_path key b o t ≡ some c)
              × (c.symbol ≡ key)))
        ⊎ ((is_broken b o t ≡ false) × (change_of quoted grove file_path key b o t ≡ none))
  unfolding change_of removed_export signature_changed
  change_of_cases key b none none = inl (refl, (_, refl, refl))
  change_of_cases key b none (some t) = inl (refl, (_, refl, refl))
  change_of_cases key b (some o) none = inl (refl, (_, refl, refl))
  change_of_cases key b (some o) (some t) =
      elim (Bool-cases (drifted b.signature o.signature t.signature)) [
        | inl h ↦ inl (h, (signature_changed quoted grove file_path key b, ground (arith, h), refl))
        | inr h ↦ inr (h, ground (arith, h))
      ]

  module _ (ours theirs : Map SymbolData) where
    -- One of the exports has the key and is broken.
    abbrev pub BrokenExport : Text → Map SymbolData → Type 0
    BrokenExport key base =
        (b : SymbolData) × Among (key, b) base
        × (is_broken b (lookup key ours) (lookup key theirs) ≡ true)

    changes_from-cons :
        (j : Text) (b : SymbolData) (base : Map SymbolData) (o : Option BreakingChange)
        → change_of quoted grove file_path j b (lookup j ours) (lookup j theirs) ≡ o
        → let rest = changes_from quoted grove file_path ours theirs base in
          let all : List BreakingChange = elim o [ none ↦ rest | some c ↦ c ∷ rest ] in
          changes_from quoted grove file_path ours theirs ((j, b) ∷ base) ≡ all
    unfolding changes_from
    changes_from-cons j b base o h =
        let rest = changes_from quoted grove file_path ours theirs base in
        ap
          (λ (x : Option BreakingChange).
            let all : List BreakingChange = elim x [ none ↦ rest | some c ↦ c ∷ rest ] in all)
          h

    BrokenExport-cons :
        (key j : Text) (b : SymbolData) (base : Map SymbolData)
        → BrokenExport key base
        → BrokenExport key ((j, b) ∷ base)
    BrokenExport-cons key j b base (a, m, h) = (a, inr m, h)

    changes_from_sound :
        (key : Text) (base : Map SymbolData)
        → Reported key (changes_from quoted grove file_path ours theirs base)
        → BrokenExport key base
    unfolding changes_from
    changes_from_sound key [] (c, m, e) = absurd m
    changes_from_sound key ((j, b) ∷ base) (c, m, e) =
        elim (change_of_cases j b (lookup j ours) (lookup j theirs)) [
          | inl (h, (c', is, named)) ↦
              elim (subst (Among c) (changes_from-cons j b base (some c') is) m) [
                | inl same ↦
                    let j-is : j ≡ key =
                      sym named ∙ ap (λ (x : BreakingChange). x.symbol) (sym same) ∙ e in
                    subst (λ k. BrokenExport k ((j, b) ∷ base)) j-is (b, inl refl, h)
                | inr there ↦
                    BrokenExport-cons key j b base (changes_from_sound key base (c, there, e))
              ]
          | inr (h, is) ↦ BrokenExport-cons key j b base (
              changes_from_sound key base
                (c, subst (Among c) (changes_from-cons j b base none is) m, e))
        ]

    changes_from_complete :
        (key : Text) (base : Map SymbolData)
        → BrokenExport key base
        → Reported key (changes_from quoted grove file_path ours theirs base)
    changes_from_complete key [] (b, m, h) = absurd m
    changes_from_complete key ((j, b) ∷ base) (a, m, h) =
        elim (change_of_cases j b (lookup j ours) (lookup j theirs)) [
          | inl (h', (c', is, named)) ↦
              let whole = sym (changes_from-cons j b base (some c') is) in
              elim m [
                | inl same ↦ (
                  c',
                  subst (Among c') whole (inl refl),
                  named ∙ sym (ap (λ (x : Text × SymbolData). x.0) same),
                )
                | inr there ↦
                    let (c, n, e) = changes_from_complete key base (a, there, h) in
                    (c, subst (Among c) whole (inr n), e)
              ]
          | inr (h', is) ↦
              let whole = sym (changes_from-cons j b base none is) in
              elim m [
                | inl same ↦
                    let broken =
                      subst
                        (λ (x : Text × SymbolData).
                          is_broken x.1 (lookup x.0 ours) (lookup x.0 theirs) ≡ true)
                        same h in
                    ground (arith, broken, h')
                | inr there ↦
                    let (c, n, e) = changes_from_complete key base (a, there, h) in
                    (c, subst (Among c) whole n, e)
              ]
        ]

-- The analysis reports a breaking change on a symbol exactly where base exports it and a side no
-- longer does, or both sides do with signatures that differ from base's and from each other.
pub analyze_iff :
    (quoted : Text → Text) (grove : Impacts) (file_path key : Text)
    (base ours theirs : List SymbolData)
    → Reported key (analyze quoted grove file_path base ours theirs)
      ↔ BrokenExport quoted grove file_path
          (export_map ours)
          (export_map theirs)
          key
          (export_map base)
unfolding analyze
analyze_iff quoted grove file_path key base ours theirs = (
  changes_from_sound quoted grove file_path (export_map ours) (export_map theirs) key
      (export_map base),
  changes_from_complete quoted grove file_path (export_map ours) (export_map theirs) key
      (export_map base),
)
