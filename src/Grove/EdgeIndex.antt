-- ===== src/Grove/EdgeIndex.antt =====
-- grove/internal/graph/edges.go: the index of the symbols and the reading of source texts that the
-- constructors of edges share. The cache of importedFiles only saves time and is left out, as is the
-- table byID, which nothing reads.
use grove_suite.Prelude.{
  ℕ, Bool, false, not, ◌&&◌, ◌||◌, ◌==◌, if◌then◌else◌, List, [], ◌∷◌, ◌++◌, Option, none, some,
  map, is_empty, keep_if, any, Text, codes, text_eq, has_prefix, Map, lookup, insert, add_keys,
}
use grove_suite.Prelude.Strings.{
  to_lower, trim_space, has_suffix, after_last, before_last, before, cut, cut_at, split_on,
  split_newlines,
}
use grove_suite.Grove.Data.{SymbolRecord}

-- A Go map entry's slice, nil where there is none.
abbrev pub entries {ℓ} : {V : Type ℓ} → Text → Map (List V) → List V
entries k m = elim (lookup k m) [ none ↦ [] | some vs ↦ vs ]

-- `m[k] = append(m[k], v)`.
abbrev pub append_at {ℓ} : {V : Type ℓ} → Text → V → Map (List V) → Map (List V)
append_at k v m = insert k (entries k m ++ v ∷ []) m

abbrev pub keys {ℓ} : {V : Type ℓ} → Map V → List Text
keys [] = []
keys ((k, v) ∷ m) = k ∷ keys m

-- `file_imports` holds for each file a set of imports.
pub record EdgeIndex : Type 0 where
  pub by_name : Map (List SymbolRecord)
  pub by_file : Map (List SymbolRecord)
  pub file_imports : Map (List Text)

unfoldable pub index_symbol : EdgeIndex → SymbolRecord → EdgeIndex
unfolding lookup insert text_eq to_lower add_keys
index_symbol idx s = record {
  by_name = append_at (to_lower s.name) s idx.by_name;
  by_file = append_at s.file_path s idx.by_file;
  file_imports =
      insert s.file_path (add_keys s.imports (entries s.file_path idx.file_imports))
        idx.file_imports;
}

unfoldable pub index_from : EdgeIndex → List SymbolRecord → EdgeIndex
unfolding index_symbol
index_from idx [] = idx
index_from idx (s ∷ ss) = index_from (index_symbol idx s) ss

unfoldable pub new_edge_index : List SymbolRecord → EdgeIndex
unfolding index_from
new_edge_index symbols =
    index_from (record { by_name = []; by_file = []; file_imports = [] }) symbols

-- `idx.byName[strings.ToLower(name)]`.
unfoldable pub named : EdgeIndex → Text → List SymbolRecord
unfolding lookup text_eq to_lower
named idx name = entries (to_lower name) idx.by_name

abbrev is_import_quote : ℕ → Bool
is_import_quote c = c == 34 || (c == 39 || (c == 32 || c == 59))

unfoldable pub last_import_segment : Text → Text
unfolding cut after_last
last_import_segment imp =
    let trimmed = cut is_import_quote imp in
    if any (λ c. c == 47) trimmed
    then after_last 47 trimmed
    else if any (λ c. c == 46) trimmed
    then after_last 46 trimmed
    else trimmed

unfoldable pub base_name_no_ext : Text → Text
unfolding after_last before_last
base_name_no_ext path =
    let base = after_last 47 path in
    elim (before_last 46 base) [ none ↦ base | some [] ↦ base | some (c ∷ stem) ↦ c ∷ stem ]

abbrev import_endings : List Text
import_endings =
    []
    ∷ codes ".go"
    ∷ codes ".py"
    ∷ codes ".ts"
    ∷ codes ".tsx"
    ∷ codes ".js"
    ∷ codes ".jsx"
    ∷ codes ".java"
    ∷ codes ".rs"
    ∷ []

-- Whether a candidate file is meant by the last segment of an import.
unfoldable pub is_import_match : Text → Text → Bool
unfolding to_lower base_name_no_ext has_suffix text_eq
is_import_match seg candidate =
    let seg_lower = to_lower seg in
    let lowered = to_lower candidate in
    text_eq (to_lower (base_name_no_ext candidate)) seg_lower
    || any (λ ending. has_suffix lowered (47 ∷ (seg_lower ++ ending))) import_endings

abbrev matched : List Text → List Text → List Text
matched candidates [] = []
matched candidates (imp ∷ imps) =
    let seg = last_import_segment imp in
    let hits = keep_if (is_import_match seg) candidates in
    (if is_empty seg then [] else hits) ++ matched candidates imps

-- The files in reach of a file's imports, itself among them.
unfoldable pub imported_files : EdgeIndex → Text → List Text
unfolding lookup text_eq last_import_segment is_import_match add_keys
imported_files idx from_file =
    let candidates = keep_if (λ f. not (text_eq f from_file)) (keys idx.by_file) in
    add_keys (matched candidates (entries from_file idx.file_imports)) (from_file ∷ [])

-- Where stripCommentsAndStrings stands in the text.
pub data Mode : Type 0 where
  in_code in_block in_line : Mode
  -- At the second byte of `/*` and of `*/`.
  opening closing : Mode
  in_string escaped : ℕ → Mode

abbrev starts_with : ℕ → Text → Bool
starts_with b [] = false
starts_with b (c ∷ s) = c == b

abbrev is_quote : ℕ → Bool
is_quote c = c == 34 || (c == 39 || c == 96)

-- The mode after a byte, and what is written for it; `s` is the text after the byte.
unfoldable pub strip_step : Mode → ℕ → Text → Mode × Text
strip_step in_code c s =
    if c == 47 && starts_with 42 s
    then (opening, [])
    else if (c == 47 && starts_with 47 s) || c == 35
    then (in_line, [])
    else if is_quote c
    then (in_string c, 32 ∷ [])
    else (in_code, c ∷ [])
strip_step opening c s = (in_block, [])
strip_step in_block c s = if c == 42 && starts_with 47 s then (closing, []) else (in_block, [])
strip_step closing c s = (in_code, [])
strip_step in_line c s = if c == 10 then (in_code, 10 ∷ []) else (in_line, [])
strip_step (in_string q) c s =
    if c == q
    then (in_code, [])
    else if c == 92
    then (escaped q, [])
    else if c == 10
    then (in_string q, 10 ∷ [])
    else (in_string q, [])
strip_step (escaped q) c s = (in_string q, [])

unfoldable pub strip_from : Mode → Text → Text
unfolding strip_step
strip_from mode [] = []
strip_from mode (c ∷ s) = let (next, out) = strip_step mode c s in out ++ strip_from next s

unfoldable pub strip_comments_and_strings : Text → Text
unfolding strip_from
strip_comments_and_strings src = strip_from in_code src

abbrev is_filled : Text → Bool
is_filled t = not (is_empty t)

unfoldable pub split_trim : Text → ℕ → List Text
unfolding split_on trim_space
split_trim s sep = keep_if is_filled (map trim_space (split_on sep s))

unfoldable pub first_line : Text → Text
unfolding trim_space before
first_line text = trim_space (before 10 text)

-- A name without its type arguments and its qualifier.
abbrev bare_name : Text → Text
bare_name name = after_last 46 (before 60 name)

-- `matchNameList`, of the list that the pattern found.
unfoldable pub match_name_list : Option Text → List Text
unfolding split_trim after_last before
match_name_list none = []
match_name_list (some found) = keep_if is_filled (map bare_name (split_trim found 44))

unfoldable pub strip_python_base : Text → Text
unfolding trim_space has_prefix text_eq after_last before
strip_python_base b =
    let trimmed = trim_space b in
    if has_prefix trimmed (codes "metaclass=") || text_eq trimmed (codes "object")
    then []
    else after_last 46 (before 91 trimmed)

-- The lines of a struct's body, for `goEmbeddedTypes`.
unfoldable pub struct_lines : Text → List Text
unfolding cut_at before_last split_newlines
struct_lines body = elim (cut_at 123 body) [
  | none ↦ []
  | some p ↦ elim (before_last 125 p.1) [
    | none ↦ split_newlines p.1
    | some inner ↦ split_newlines inner
  ]
]
