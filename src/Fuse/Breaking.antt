-- ===== src/Fuse/Breaking.antt =====
-- fuse/internal/merge/analysis: breaking.go and blast.go. Grove's two queries are parameters: an
-- absent client is `none`, as is the answer of a query that fails, and of an answer only the path of
-- each node or the start of each edge is read. `quoted` is the verb %q of package fmt.
pub mod Reports
use Prim.Native.String.{String}
use grove_suite.Prelude.{
  ℕ, Bool, true, false, not, ◌&&◌, ◌||◌, leb, if◌then◌else◌, List, [], ◌∷◌, ◌++◌, Option, none,
  some, length, is_empty, Text, codes, text_eq, Map, lookup, insert, member,
}
use grove_suite.Prelude.Strings.{decimal}
use grove_suite.Fuse.Data.{
  SymbolData, BreakingChange, ConflictSeverity, none_severity, low, medium, high, critical,
}

unfoldable pub export_key : SymbolData → Text
unfolding text_eq
export_key s =
    if not (is_empty s.qualified_name) && not (text_eq s.qualified_name s.name)
    then s.qualified_name
    else if not (is_empty s.parent_name)
    then s.parent_name ++ (46 ∷ s.name)
    else s.name

unfoldable pub exports_from : Map SymbolData → List SymbolData → Map SymbolData
unfolding export_key insert
exports_from m [] = m
exports_from m (s ∷ ss) = exports_from (if s.exported then insert (export_key s) s m else m) ss

unfoldable pub export_map : List SymbolData → Map SymbolData
unfolding exports_from
export_map syms = exports_from [] syms

abbrev pub removed_by : Bool → Bool → Text
removed_by false false = codes "both sides"
removed_by false true = codes "ours"
removed_by true in_theirs = codes "theirs"

unfoldable pub severity_for_count : ℕ → ConflictSeverity
severity_for_count n =
    if leb 6 n then critical else if leb 3 n then high else if leb 1 n then medium else low

-- The paths that are not empty and not in `seen`, each once.
unfoldable pub unseen_paths : List Text → List Text → List Text
unfolding member
unseen_paths seen [] = []
unseen_paths seen (p ∷ ps) =
    let skip = is_empty p || member p seen in
    let rest = unseen_paths (if skip then seen else p ∷ seen) ps in if skip then rest else p ∷ rest

-- What Grove answers about a symbol and a depth.
abbrev pub Impacts : Type 0
Impacts = Option (Text → ℕ → Option (List Text))

abbrev pub answered : Option (List Text) → List Text → List Text
answered none seen = []
answered (some paths) seen = unseen_paths seen paths

unfoldable pub affected : Impacts → Text → Text → List Text
unfolding unseen_paths
affected none file_path symbol = []
affected (some impact) file_path symbol = answered (impact symbol 2) (file_path ∷ [])

unfoldable pub blast_radius_of : Impacts → Text → ℕ → List Text
unfolding unseen_paths
blast_radius_of none symbol max_depth = []
blast_radius_of (some impact) symbol max_depth = answered (impact symbol max_depth) []

unfoldable pub dependents : Option (Text → Option (List Text)) → Text → List Text
unfolding unseen_paths
dependents none file_path = []
dependents (some deps) file_path = answered (deps file_path) (file_path ∷ [])

-- The three signatures are pairwise different.
abbrev pub drifted : Text → Text → Text → Bool
drifted base ours theirs =
    not (text_eq ours base) && (not (text_eq theirs base) && not (text_eq ours theirs))

module _ (quoted : Text → Text) (grove : Impacts) (file_path : Text) where
  abbrev removed_message : Text → Bool → Bool → ℕ → Text
  removed_message key in_ours in_theirs n =
      codes "Export "
      ++ (quoted key
          ++ (codes " removed by "
              ++ (removed_by in_ours in_theirs
                  ++ (32 ∷ 226 ∷ 128 ∷ 148 ∷ codes " may break "
                      ++ (decimal n ++ codes " caller(s)")))))

  abbrev drift_message : Text → ℕ → Text
  drift_message key n =
      codes "Signature of "
      ++ (quoted key
          ++ (codes " changed incompatibly on both sides "
              ++ (226 ∷ 128 ∷ 148 ∷ codes " may break " ++ (decimal n ++ codes " caller(s)"))))

  unfoldable pub removed_export : Text → SymbolData → Bool → Bool → BreakingChange
  unfolding affected severity_for_count decimal
  removed_export key s in_ours in_theirs =
      let files = affected grove file_path s.name in
      record {
        kind = codes "removed_export";
        symbol = key;
        affected_files = files;
        severity = severity_for_count (length files);
        message = removed_message key in_ours in_theirs (length files);
      }

  unfoldable pub signature_changed : Text → SymbolData → BreakingChange
  unfolding affected severity_for_count decimal
  signature_changed key s =
      let files = affected grove file_path s.name in
      record {
        kind = codes "signature_changed";
        symbol = key;
        affected_files = files;
        severity = severity_for_count (length files);
        message = drift_message key (length files);
      }

  -- The change that one export of base gives, from the same export of each side.
  unfoldable pub change_of :
      Text → SymbolData → Option SymbolData → Option SymbolData → Option BreakingChange
  unfolding removed_export signature_changed text_eq
  change_of key b none none = some (removed_export key b false false)
  change_of key b none (some t) = some (removed_export key b false true)
  change_of key b (some o) none = some (removed_export key b true false)
  change_of key b (some o) (some t) =
      if drifted b.signature o.signature t.signature then some (signature_changed key b) else none

  unfoldable pub changes_from :
      Map SymbolData → Map SymbolData → Map SymbolData → List BreakingChange
  unfolding change_of lookup
  changes_from ours theirs [] = []
  changes_from ours theirs ((key, b) ∷ base) =
      let rest = changes_from ours theirs base in
      elim (change_of key b (lookup key ours) (lookup key theirs)) [
        | none ↦ rest
        | some c ↦ c ∷ rest
      ]

  unfoldable pub analyze : List SymbolData → List SymbolData → List SymbolData → List BreakingChange
  unfolding changes_from export_map
  analyze base ours theirs = changes_from (export_map ours) (export_map theirs) (export_map base)
