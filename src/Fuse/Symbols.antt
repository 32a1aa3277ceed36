-- ===== src/Fuse/Symbols.antt =====
-- fuse/internal/merge/strategies/symbol.go: the symbol-level three-way merge. Go's random order of
-- a map's entries is the order of the association list. Confidences are the doubles of the source,
-- added and divided with its rounding.
pub mod Keys
pub mod Loop
pub mod OneSided
use grove_suite.Prelude.{
  ℕ, zero, suc, ◌+◌, ◌*◌, Bool, true, false, not, ◌&&◌, ◌||◌, Option, none, some, List, [], ◌∷◌,
  ◌++◌, map, ◌==◌, ltb, if◌then◌else◌, length, is_empty, keep_if, Text, codes, text_eq, text_lt,
  Map, lookup, insert, member,
}
use grove_suite.Prelude.Sorts.{sort_stable}
use grove_suite.Fuse.Data.{SymbolData, SymbolConflict, empty_symbol}
use grove_suite.Fuse.Floats.{half, one, ninety_five, forty_five, round, add_float, mean_float}
use grove_suite.Fuse.ThreeWay.{
  MergeAction, keep, use_ours, use_theirs, converged, delete, conflict, three_way_symbol,
}

-- The confidence num / den.
pub record Fraction : Type 0 where
  pub num : ℕ
  pub den : ℕ

pub record SymbolMergeResult : Type 0 where
  pub merged : List SymbolData
  pub conflicts : List SymbolConflict
  pub confidence : Fraction

abbrev pub deref : Option SymbolData → SymbolData
deref none = empty_symbol
deref (some s) = s

-- `symbols_to_map`: later entries with the same key win.
unfoldable pub insert_all : List SymbolData → Map SymbolData → Map SymbolData
insert_all [] m = m
insert_all (s ∷ ss) m = insert_all ss (insert s.qualified_name s m)

unfoldable pub symbols_to_map : List SymbolData → Map SymbolData
unfolding insert_all
symbols_to_map syms = insert_all syms []

abbrev pub Entry : Type 0
Entry = Text × SymbolData

-- By the line on which the symbol starts, then by key.
abbrev pub entry_less : Entry → Entry → Bool
entry_less (j, s) (k, t) =
    if s.span.start == t.span.start then text_lt j k else ltb s.span.start t.span.start

abbrev pub keys_of : List Entry → List Text
keys_of [] = []
keys_of ((k, s) ∷ es) = k ∷ keys_of es

-- `appendOrdered`: `out` holds the keys that are seen, in the order in which they were appended.
unfoldable pub append_ordered : List Text → Map SymbolData → List Text
append_ordered out m =
    out ++ keys_of (sort_stable entry_less (keep_if (λ (e : Entry). not (member e.0 out)) m))

unfoldable pub ordered_keys : Map SymbolData → Map SymbolData → Map SymbolData → List Text
unfolding append_ordered
ordered_keys primary secondary tertiary =
    append_ordered (append_ordered (append_ordered [] primary) secondary) tertiary

unfoldable pub ends_newline : Text → Bool
ends_newline [] = false
ends_newline (c ∷ []) = c == 10
ends_newline (c ∷ d ∷ s) = ends_newline (d ∷ s)

abbrev pub with_newline : Text → Text
with_newline s = if ends_newline s then s else s ++ (10 ∷ [])

unfoldable pub render_conflict_markers : Text → Text → Text → Text
unfolding ends_newline
render_conflict_markers ours theirs base =
    let o = if is_empty ours then codes "// (symbol removed in ours)" else ours in
    let t = if is_empty theirs then codes "// (symbol removed in theirs)" else theirs in
    (codes "<<<<<<< HEAD" ++ (10 ∷ with_newline o))
    ++ ((if is_empty base then [] else codes "||||||| base" ++ (10 ∷ with_newline base))
        ++ ((codes "=======" ++ (10 ∷ with_newline t)) ++ codes ">>>>>>> theirs"))

-- What one round of the loop adds: merged symbols, conflicts, a confidence and how many it has.
pub record Outcome : Type 0 where
  pub emitted : List SymbolData
  pub clashes : List SymbolConflict
  pub weight : ℕ
  pub count : ℕ

abbrev pub only : List SymbolData → ℕ → Outcome
only syms w = record { emitted = syms; clashes = []; weight = w; count = 1 }

abbrev nothing : Outcome
nothing = record { emitted = []; clashes = []; weight = 0; count = 0 }

abbrev pub first_present : Option SymbolData → Option SymbolData → List SymbolData
first_present (some o) t = o ∷ []
first_present none (some t) = t ∷ []
first_present none none = []

abbrev pub with_body : Text → List SymbolData → List SymbolData
with_body body [] = []
with_body body (s ∷ ss) = record s { body = body } ∷ ss

-- The `switch` on the action.
unfoldable pub outcome :
    Text → Option SymbolData → Option SymbolData → Option SymbolData → MergeAction → Outcome
outcome k b o t keep = only (first_present o t) one
outcome k b o t converged = only (first_present o t) one
outcome k b (some o) t use_ours = only (o ∷ []) ninety_five
outcome k b none t use_ours = nothing
outcome k b o (some t) use_theirs = only (t ∷ []) ninety_five
outcome k b o none use_theirs = nothing
outcome k b o t delete = only [] ninety_five
outcome k b o t conflict = record {
  emitted =
      with_body (render_conflict_markers (deref o).body (deref t).body (deref b).body)
        (first_present o t);
  clashes = record { key = k; base = deref b; ours = deref o; theirs = deref t } ∷ [];
  weight = forty_five;
  count = 1;
}

-- The accumulators of the loop.
pub record Progress : Type 0 where
  pub merged : List SymbolData
  pub conflicts : List SymbolConflict
  pub conf_sum : ℕ
  pub conf_n : ℕ

abbrev pub add_outcome : Progress → Outcome → Progress
add_outcome p r = record {
  merged = p.merged ++ r.emitted;
  conflicts = p.conflicts ++ r.clashes;
  conf_sum = if r.count == 0 then p.conf_sum else add_float p.conf_sum r.weight;
  conf_n = p.conf_n + r.count;
}

-- One key of the three maps.
unfoldable pub decide_key : Map SymbolData → Map SymbolData → Map SymbolData → Text → Outcome
unfolding outcome three_way_symbol lookup
decide_key base ours theirs k =
    let b = lookup k base in
    let o = lookup k ours in let t = lookup k theirs in outcome k b o t (three_way_symbol b o t)

unfoldable pub merge_keys :
    Map SymbolData → Map SymbolData → Map SymbolData → List Text → List Text → Progress → Progress
unfolding decide_key member
merge_keys base ours theirs used [] p = p
merge_keys base ours theirs used (k ∷ ks) p =
    let skipped = merge_keys base ours theirs used ks p in
    let done =
      merge_keys base ours theirs (k ∷ used) ks (add_outcome p (decide_key base ours theirs k)) in
    if member k used then skipped else done

abbrev pub start : Progress
start = record { merged = []; conflicts = []; conf_sum = 0; conf_n = 0 }

unfoldable pub confidence_of : Progress → Fraction
confidence_of p =
    let conf = if p.conf_n == 0 then one else mean_float p.conf_sum p.conf_n in
    record {
      num = if not (is_empty p.conflicts) && ltb half conf then forty_five else conf;
      den = one;
    }

unfoldable pub symbol_merge : Map SymbolData → Map SymbolData → Map SymbolData → SymbolMergeResult
unfolding merge_keys ordered_keys confidence_of
symbol_merge base ours theirs =
    let p = merge_keys base ours theirs [] (ordered_keys ours theirs base) start in
    record { merged = p.merged; conflicts = p.conflicts; confidence = confidence_of p }
