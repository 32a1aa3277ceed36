-- ===== src/Fuse/Reconstruct.antt =====
-- reconstructFile of fuse/internal/merge/orchestrator.go: the merged file from the lines of ours. Go's
-- loop counts lines and spans; here it recurs on the spans, and copies the lines up to the next one.
-- `quoted` is the verb %q of package fmt.
pub mod Kept
use Prim.Native.String.{String}
use grove_suite.Prelude.{
  ℕ, suc, ◌+◌, ◌-◌, Bool, true, false, not, ◌&&◌, ◌||◌, ltb, leb, if◌then◌else◌, List, [], ◌∷◌,
  ◌++◌, Option, none, some, map, take, drop, length, is_empty, keep_if, concat_map, Text, codes,
  text_eq, has_prefix, Map, lookup, insert, member,
}
use grove_suite.Prelude.Sorts.{sort_stable}
use grove_suite.Prelude.Strings.{split_newlines, join, trim_space}
use grove_suite.Fuse.Data.{SymbolData, ImportStatement, LineRange}
use grove_suite.Fuse.Symbols.{symbols_to_map}

pub data SpanKind : Type 0 where
  span_symbol span_skip span_import : SpanKind

-- The lines from `start` to `end`, and what stands in their place.
pub record Span : Type 0 where
  pub start : ℕ
  pub end : ℕ
  pub body : Text
  pub kind : SpanKind

abbrev pub symbol_span : Map SymbolData → SymbolData → Span
symbol_span merged s = elim (lookup s.qualified_name merged) [
  | none ↦ record { start = s.span.start; end = s.span.end; body = []; kind = span_skip }
  | some m ↦ record { start = s.span.start; end = s.span.end; body = m.body; kind = span_symbol }
]

abbrev pub import_span : ImportStatement → Span
import_span i = record { start = i.line; end = i.line; body = []; kind = span_import }

abbrev pub earlier : Span → Span → Bool
earlier s t = ltb s.start t.start

unfoldable pub spans_of : List SymbolData → List SymbolData → List ImportStatement → List Span
unfolding symbols_to_map lookup sort_stable
spans_of ours merged imports =
    sort_stable earlier (map (symbol_span (symbols_to_map merged)) ours ++ map import_span imports)

-- The symbols of ours that the merge kept, as `usedKeys`.
unfoldable pub used_keys : List SymbolData → Map SymbolData → List Text
unfolding lookup
used_keys [] merged = []
used_keys (s ∷ ss) merged = elim (lookup s.qualified_name merged) [
  | none ↦ used_keys ss merged
  | some m ↦ s.qualified_name ∷ used_keys ss merged
]

-- The lines that stand for a span, and whether the imports are out after it.
unfoldable pub emitted : Text → Bool → Span → SpanKind → List Text × Bool
emitted block out s span_symbol = (s.body ∷ [], out)
emitted block out s span_skip = ([], out)
emitted block true s span_import = ([], true)
emitted block false s span_import = (if is_empty block then [] else block ∷ [], true)

-- The loop from a line on, with the spans that are left. A span that starts before that line, or
-- after the last one, is never reached, nor is one behind it.
unfoldable pub substitute : List Text → Text → ℕ → Bool → List Span → List Text × Bool
unfolding emitted
substitute lines block line out [] = (drop (line - 1) lines, out)
substitute lines block line out (s ∷ ss) =
    let (here, out') = emitted block out s s.kind in
    let (rest, last) = substitute lines block (suc s.end) out' ss in
    let before = take (s.start - line) (drop (line - 1) lines) in
    if leb line s.start && leb s.start (length lines)
    then (before ++ (here ++ rest), last)
    else (drop (line - 1) lines, out)

module _ (quoted : Text → Text) where
  abbrev go_import : ImportStatement → Text
  go_import i =
      9 ∷ ((if is_empty i.alias then [] else i.alias ++ (32 ∷ [])) ++ (quoted i.path ++ (10 ∷ [])))

  abbrev raw_line : ImportStatement → Text
  raw_line i = trim_space i.raw

  abbrev glued : List Text → Text
  glued [] = []
  glued (t ∷ ts) = t ++ glued ts

  unfoldable pub render_import_block : List ImportStatement → Text → Text
  unfolding text_eq trim_space join
  render_import_block imps lang =
      if is_empty imps
      then []
      else if text_eq lang (codes "go")
      then codes "import (" ++ (10 ∷ (glued (map go_import imps) ++ codes ")"))
      else join (10 ∷ []) (map raw_line imps)

  -- `insertAt`, from the line with index `i` on.
  unfoldable pub insert_at : Text → ℕ → List Text → ℕ
  unfolding trim_space has_prefix text_eq
  insert_at lang i [] = 0
  insert_at lang i (l ∷ ls) =
      let trimmed = trim_space l in
      let later = insert_at lang (suc i) ls in
      if is_empty trimmed || (has_prefix trimmed (codes "//") || has_prefix trimmed (codes "#"))
      then later
      else if text_eq lang (codes "go") && has_prefix trimmed (codes "package ")
      then suc i
      else i

  unfoldable pub inject_imports : List Text → Text → Text → List Text
  unfolding insert_at
  inject_imports lines block lang =
      let at = insert_at lang 0 lines in take at lines ++ ([] ∷ block ∷ [] ∷ drop at lines)

  -- The symbols that ours lacks, each after an empty line.
  abbrev pub added : List Text → List SymbolData → List Text
  added used [] = []
  added used (s ∷ ss) =
      let rest = added used ss in if member s.qualified_name used then rest else [] ∷ s.body ∷ rest

  -- `reconstructFile` up to the joining of the lines.
  unfoldable pub merged_lines :
      List Text
      → List SymbolData
      → List SymbolData
      → List ImportStatement
      → List ImportStatement
      → Text
      → List Text
  unfolding spans_of substitute render_import_block inject_imports used_keys symbols_to_map member
  merged_lines lines ours merged imports ours_imports lang =
      let block = render_import_block imports lang in
      let (out, is_out) = substitute lines block 1 false (spans_of ours merged ours_imports) in
      (if not is_out && (not (is_empty block) && not (is_empty imports))
        then inject_imports out block lang
        else out)
      ++ added (used_keys ours (symbols_to_map merged)) merged

  unfoldable pub reconstruct_file :
      Text
      → List SymbolData
      → List SymbolData
      → List ImportStatement
      → List ImportStatement
      → Text
      → Text
  unfolding split_newlines merged_lines join
  reconstruct_file content ours merged imports ours_imports lang =
      join (10 ∷ []) (merged_lines (split_newlines content) ours merged imports ours_imports lang)
