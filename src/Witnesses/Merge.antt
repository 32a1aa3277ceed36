-- ===== src/Witnesses/Merge.antt =====
-- The merge of a whole file at concrete inputs.
use grove_suite.Prelude.{
  ℕ, insert, ◌≡◌, ◌↔◌, refl, true, false, List, [], ◌∷◌, ◌++◌, none, some, if◌then◌else◌, Text,
  codes, map, text_eq, arith,
}
use grove_suite.Prelude.Members.{Among}
use grove_suite.Fuse.Data.{SymbolData, empty_symbol}
use grove_suite.Fuse.Breaking.{Impacts, export_map, analyze}
use grove_suite.Fuse.Breaking.Reports.{Reported, BrokenExport, analyze_iff}
use grove_suite.Fuse.Config.{Value, nil, whole, object, no_entries, entry, merge_value}
use grove_suite.Fuse.Config.OneSided.{WellKeyed, merge_value_one_sided}
use grove_suite.Fuse.Reconstruct.{spans_of, merged_lines}
use grove_suite.Fuse.Reconstruct.Kept.{merged_lines-Among}
use grove_suite.Fuse.Orchestrator.{IntelliMerge, Extracted, merge}
use grove_suite.Fuse.Orchestrator.OneSided.{IsClean, merge-IsClean}

abbrev quote : Text → Text
quote t = 34 ∷ (t ++ (34 ∷ []))

-- A function on one line.
abbrev function : Text → ℕ → Text → SymbolData
function name line body = record empty_symbol {
  name = name;
  qualified_name = name;
  signature = codes "func " ++ name;
  body = body;
  span = record { start = line; end = line };
  exported = true;
}

abbrev old_f : SymbolData
old_f = function (codes "F") 2 (codes "f1")

abbrev new_f : SymbolData
new_f = function (codes "F") 2 (codes "f2")

abbrev new_g : SymbolData
new_g = function (codes "G") 3 (codes "g")

abbrev two_callers : Impacts
two_callers =
    some (λ name depth. some (codes "b.go" ∷ codes "a.go" ∷ codes "c.go" ∷ codes "b.go" ∷ []))

callers :
    map
      (λ c. c.affected_files)
      (analyze quote two_callers (codes "a.go") (old_f ∷ []) [] (old_f ∷ []))
    ≡ (codes "b.go" ∷ codes "c.go" ∷ []) ∷ []
unfolding analyze
callers = refl

analyze_iff_example :
    Reported (codes "F") (analyze quote two_callers (codes "a.go") (old_f ∷ []) [] (old_f ∷ []))
    ↔ BrokenExport quote two_callers
        (codes "a.go")
        (export_map [])
        (export_map (old_f ∷ []))
        (codes "F")
        (export_map (old_f ∷ []))
analyze_iff_example =
    analyze_iff quote two_callers (codes "a.go") (codes "F") (old_f ∷ []) [] (old_f ∷ [])

abbrev to_json : Value → Text
to_json nil = codes "null"
to_json (whole t) = t
to_json (object es) = codes "{}"

abbrev version : Text → Value
version v = object (entry (codes "version") (whole v) no_entries)

merge_value_one_sided_example :
    ((merge_value to_json (version (codes "1")) (version (codes "2")) (version (codes "1"))).1
      ≡ false)
    × ((merge_value to_json (version (codes "1")) (version (codes "1")) (version (codes "2"))).1
        ≡ false)
unfolding WellKeyed
merge_value_one_sided_example =
    merge_value_one_sided to_json (version (codes "1")) (version (codes "2")) (refl, tt, tt)

abbrev two_lines : List Text
two_lines = codes "package p" ∷ codes "f1" ∷ []

abbrev both : List SymbolData
both = new_f ∷ new_g ∷ []

-- The body of F is put in place, and G, which ours lacks, comes at the end.
lines_merged :
    merged_lines quote two_lines (old_f ∷ []) both [] [] (codes "go")
    ≡ codes "package p" ∷ codes "f2" ∷ [] ∷ codes "g" ∷ []
unfolding merged_lines insert
lines_merged = refl

merged_lines-Among_example :
    Among (codes "f2") (merged_lines quote two_lines (old_f ∷ []) both [] [] (codes "go"))
unfolding spans_of insert text_eq
merged_lines-Among_example =
    merged_lines-Among quote two_lines (old_f ∷ []) both [] [] (codes "go") (codes "F") new_f
      (omega arith, omega arith, tt) refl

abbrev old_text : Text
old_text = codes "package p" ++ (10 ∷ codes "f1")

abbrev ours_text : Text
ours_text = codes "package p" ++ (10 ∷ codes "f2")

abbrev theirs_text : Text
theirs_text = codes "// p" ++ (10 ∷ codes "f1")

abbrev old_file : Extracted
old_file = record { symbols = old_f ∷ []; imports = [] }

abbrev new_file : Extracted
new_file = record { symbols = new_f ∷ []; imports = [] }

-- A parser that knows two texts apart.
abbrev driver : IntelliMerge
driver = record {
  extract = λ lang text. if text_eq text ours_text then some new_file else some old_file;
  is_supported = λ lang. true;
  grove = two_callers;
  handoff_threshold = record { num = 30; den = 100 };
  enable_breaking = true;
  quoted = quote;
  marshal = to_json;
  formats = λ lang. none;
}

merge-IsClean_example :
    IsClean (merge driver (codes "p.go") (codes "go") old_text ours_text theirs_text)
unfolding text_eq
merge-IsClean_example =
    merge-IsClean driver (codes "p.go") (codes "go") old_text ours_text theirs_text old_file
      new_file old_file refl refl refl refl refl refl
