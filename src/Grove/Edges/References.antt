-- ===== src/Grove/Edges/References.antt =====
-- The references among all edges of BuildEdges, and how often a pair of symbols has one.
use grove_suite.Prelude.{
  ℕ, ◌≡◌, inl, inr, refl, ap, ◌∙◌, Bool, true, false, if◌then◌else◌, concat_map, List, [], ◌∷◌,
  ◌++◌, Text, codes, text_eq, text_eq_iff, text_eq_refl, member, distinct, arith, map, is_empty,
  Bool-cases,
}
use grove_suite.Prelude.Members.{Among, Among-map, Among-append, Among-concat_map}
use grove_suite.Grove.Data.{SymbolRecord, Edge, EdgeType, edge_extends, edge_implements}
use grove_suite.Grove.EdgeIndex.{
  EdgeIndex, new_edge_index, first_line, match_name_list, struct_lines,
}
use grove_suite.Grove.Patterns.{
  Patterns, is_class, is_class_or_interface, is_struct, is_struct_or_enum,
}
use grove_suite.Grove.Inheritance.{
  is_script, python_bases, traits_of, embedded_in, resolve_type_edges, build_extends_implements,
  inheritance_of, script_edges, python_edges, rust_edges, go_edges,
}
use grove_suite.Grove.Edges.{
  import_edges, defines_from, build_defines_and_imports, contains_of, build_contains, once,
  build_uses_type, calls_of, build_calls, tests_of, build_tests, build_edges,
}
use grove_suite.Grove.Edges.Scope.{
  is_reference, IsScoped, build_calls-IsScoped, build_uses_type-IsScoped,
}

-- None of the edges is a reference.
Plain : List Edge → Type 0
Plain es = (e : Edge) → Among e es → is_reference e.type ≡ false

Plain-append : (xs ys : List Edge) → Plain xs → Plain ys → Plain (xs ++ ys)
unfolding Plain
Plain-append xs ys p q e m = elim ((Among-append e xs ys).0 m) [
  | inl here ↦ p e here
  | inr there ↦ q e there
]

Plain-concat_map :
    {A : Type 0} (f : A → List Edge) (xs : List A)
    → ((x : A) → Plain (f x))
    → Plain (concat_map f xs)
unfolding Plain
Plain-concat_map f xs all e m = let (x, _, here) = (Among-concat_map f e xs).0 m in all x e here

Plain-map :
    (f : SymbolRecord → Edge) (ts : List SymbolRecord)
    → ((t : SymbolRecord) → is_reference (f t).type ≡ false)
    → Plain (map f ts)
unfolding Plain
Plain-map f ts all e m =
    let (t, _, e-is) = (Among-map f e ts).0 m in ap (λ (x : Edge). is_reference x.type) e-is ∙ all t

Plain-if : (b : Bool) (xs ys : List Edge) → Plain xs → Plain ys → Plain (if b then xs else ys)
Plain-if true xs ys p q = p
Plain-if false xs ys p q = q

Plain-nil : Plain []
unfolding Plain
Plain-nil e m = absurd m

Plain-cons : (e : Edge) (es : List Edge) → is_reference e.type ≡ false → Plain es → Plain (e ∷ es)
unfolding Plain
Plain-cons e es h p f (inl same) = ap (λ (x : Edge). is_reference x.type) same ∙ h
Plain-cons e es h p f (inr m) = p f m

import_edges-Plain :
    (file_node : Text) (seen imps : List Text) → Plain (import_edges file_node seen imps).0
unfolding import_edges
import_edges-Plain file_node seen [] = Plain-nil
import_edges-Plain file_node seen (imp ∷ imps) =
    let key = file_node ++ (codes "::import:" ++ imp) in
    let old = member key seen in
    let ih = import_edges-Plain file_node (if old then seen else key ∷ seen) imps in
    Plain-if old _ _ ih (Plain-cons _ _ refl ih)

defines_from-Plain :
    (files imports : List Text) (ss : List SymbolRecord) → Plain (defines_from files imports ss)
unfolding defines_from
defines_from-Plain files imports [] = Plain-nil
defines_from-Plain files imports (s ∷ ss) =
    let known = member s.file_path files in
    let file_node = codes "file:" ++ s.file_path in
    let listed = if known then [] else s.imports in
    Plain-cons _ _ refl (
      Plain-append _ _ (import_edges-Plain file_node imports listed) (
        defines_from-Plain (if known then files else s.file_path ∷ files)
          (import_edges file_node imports listed).1 ss))

contains_of-Plain : (idx : EdgeIndex) (s : SymbolRecord) → Plain (contains_of idx s)
unfolding contains_of
contains_of-Plain idx s = Plain-if _ _ _ Plain-nil (Plain-map _ _ (λ t. refl))

tests_of-Plain : (idx : EdgeIndex) (s : SymbolRecord) → Plain (tests_of idx s)
unfolding tests_of
tests_of-Plain idx s = Plain-if _ _ _ (Plain-map _ _ (λ t. refl)) Plain-nil

resolve-Plain :
    (idx : EdgeIndex) (s : SymbolRecord) (type : EdgeType) (n : ℕ) (names : List Text)
    → is_reference type ≡ false
    → Plain (concat_map (resolve_type_edges idx s type n) names)
unfolding resolve_type_edges
resolve-Plain idx s type n names h =
    Plain-concat_map (resolve_type_edges idx s type n) names (λ name. Plain-map _ _ (λ t. h))

module _ (patterns : Patterns) (idx : EdgeIndex) (s : SymbolRecord) where
  script_edges-Plain : Plain (script_edges patterns idx s)
  unfolding script_edges
  script_edges-Plain =
      let text = if is_empty s.signature then first_line s.raw_text else s.signature in
      Plain-append _ _
        (resolve-Plain idx s edge_extends 85 (match_name_list (patterns.extends_list text)) refl)
        (resolve-Plain idx s edge_implements 85 (match_name_list (patterns.implements_list text))
          refl)

  python_edges-Plain : Plain (python_edges patterns idx s)
  unfolding python_edges
  python_edges-Plain =
      resolve-Plain idx s edge_extends 85
        (python_bases (patterns.python_class_base (first_line s.raw_text))) refl

  rust_edges-Plain : Plain (rust_edges patterns idx s)
  unfolding rust_edges
  rust_edges-Plain =
      resolve-Plain idx s edge_implements 85 (traits_of s.name (patterns.rust_impl_for s.raw_text))
        refl

  go_edges-Plain : Plain (go_edges patterns idx s)
  unfolding go_edges
  go_edges-Plain =
      resolve-Plain idx s edge_extends 70 (embedded_in patterns (struct_lines s.raw_text)) refl

  Plain-guard : (b : Bool) (es : List Edge) → Plain es → Plain (if b then es else [])
  Plain-guard b es p = Plain-if b es [] p Plain-nil

  inheritance_of-Plain : Plain (inheritance_of patterns idx s)
  unfolding inheritance_of
  inheritance_of-Plain =
      Plain-if (is_script s.language) _ _
        (Plain-guard (is_class_or_interface s.kind) _ script_edges-Plain)
        (Plain-if (text_eq s.language (codes "python")) _ _
          (Plain-guard (is_class s.kind) _ python_edges-Plain)
          (Plain-if (text_eq s.language (codes "rust")) _ _
            (Plain-guard (is_struct_or_enum s.kind) _ rust_edges-Plain)
            (Plain-guard (text_eq s.language (codes "go")) _
              (Plain-guard (is_struct s.kind) _ go_edges-Plain))))

-- A reference in a list of edges with plain ones in front is behind them.
skip-Plain :
    (e : Edge) (xs ys : List Edge)
    → is_reference e.type ≡ true
    → Plain xs
    → Among e (xs ++ ys)
    → Among e ys
unfolding Plain
skip-Plain e xs ys h plain m = elim ((Among-append e xs ys).0 m) [
  | inl here ↦ ground (arith, h, plain e here)
  | inr there ↦ there
]

-- In the edges that BuildEdges makes from a list of symbols, every calls and every uses-type edge
-- leads from one of the symbols to one that stands in the same file or in a file that the first's
-- imports reach; and a calls edge leads from a function, method or constructor to another one.
pub build_edges-IsScoped :
    (patterns : Patterns) (symbols : List SymbolRecord) (e : Edge)
    → Among e (build_edges patterns symbols)
    → is_reference e.type ≡ true
    → IsScoped symbols e
unfolding build_edges build_defines_and_imports build_contains build_extends_implements build_tests
    Plain
build_edges-IsScoped patterns symbols e m h =
    let idx = new_edge_index symbols in
    let m1 = skip-Plain e _ _ h (defines_from-Plain [] [] symbols) m in
    let m2 = skip-Plain e _ _ h (Plain-concat_map _ symbols (contains_of-Plain idx)) m1 in
    let m3 =
      skip-Plain e _ _ h (Plain-concat_map _ symbols (inheritance_of-Plain patterns idx)) m2 in
    elim ((Among-append e (build_uses_type patterns idx symbols) _).0 m3) [
      | inl uses ↦ build_uses_type-IsScoped symbols patterns e uses
      | inr m4 ↦ elim ((Among-append e (build_calls patterns idx symbols) _).0 m4) [
        | inl calls ↦ build_calls-IsScoped symbols patterns e calls
        | inr tests ↦ ground (arith, h, Plain-concat_map _ symbols (tests_of-Plain idx) e tests)
      ]
    ]

-- The key of an edge in the set of those seen.
abbrev edge_key : Text → Edge → Text
edge_key sep e = e.from ++ (sep ++ e.to)

once_fresh :
    (sep k : Text) (seen : List Text) (es : List Edge)
    → member k seen ≡ true
    → member k (map (edge_key sep) (once sep seen es)) ≡ false
unfolding once member
once_fresh sep k seen [] h = refl
once_fresh sep k seen (e ∷ es) h =
    let key = edge_key sep e in
    elim (Bool-cases (member key seen)) [
      | inl old ↦ rw old (once_fresh sep k seen es h)
      | inr new ↦ rw new (
          ground (
            arith,
            text_eq_iff key k,
            ap (λ j. member j seen),
            once_fresh sep k (key ∷ seen) es (ground (arith, h)),
            h,
            new,
          ))
    ]

once-distinct :
    (sep : Text) (seen : List Text) (es : List Edge)
    → distinct (map (edge_key sep) (once sep seen es)) ≡ true
unfolding once member
once-distinct sep seen [] = refl
once-distinct sep seen (e ∷ es) =
    let key = edge_key sep e in
    elim (Bool-cases (member key seen)) [
      | inl old ↦ rw old (once-distinct sep seen es)
      | inr new ↦ rw new (
          ground (
            arith,
            once_fresh sep key (key ∷ seen) es (ground (arith, text_eq_refl key)),
            once-distinct sep (key ∷ seen) es,
          ))
    ]

-- BuildEdges draws at most one calls edge from one symbol to another: no two have the same ends.
build_calls-distinct :
    (patterns : Patterns) (idx : EdgeIndex) (symbols : List SymbolRecord)
    → distinct (map (edge_key (codes "::calls::")) (build_calls patterns idx symbols)) ≡ true
unfolding build_calls
build_calls-distinct patterns idx symbols =
    once-distinct (codes "::calls::") [] (concat_map (calls_of patterns idx symbols) symbols)
