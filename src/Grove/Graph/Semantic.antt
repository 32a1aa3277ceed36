-- ===== src/Grove/Graph/Semantic.antt =====
-- The cache of SemanticSearch: Replace throws the engine away, and a search builds it anew.
use grove_suite.Prelude.{
  ℕ, ◌≡◌, refl, ap, Bool, true, false, List, [], ◌∷◌, Option, none, some, Text, arith,
  if◌then◌else◌, ◌==◌,
}
use grove_suite.Grove.Data.{SymbolRecord, Edge}
use grove_suite.Grove.Graph.{CodeGraph, values, answer, new_graph, replace, semantic_search}

-- The calls that change the graph or its engine.
pub data Call : Type 0 where
  replace_call : List SymbolRecord → ℕ → Call
  search_call : Text → ℕ → Call

module _ {E R : Type 0} (build_edges : List SymbolRecord → List Edge)
    (index : List SymbolRecord → E) (ask : E → Text → ℕ → R) where
  abbrev pub after_call : CodeGraph E → Call → CodeGraph E
  after_call g (replace_call symbols n) = replace build_edges g symbols n
  after_call g (search_call query limit) = (semantic_search index ask g query limit).1

  abbrev pub after_calls : CodeGraph E → List Call → CodeGraph E
  after_calls g [] = g
  after_calls g (c ∷ cs) = after_calls (after_call g c) cs

  -- An engine that is not dirty was built from the symbols of the graph.
  IsFresh : CodeGraph E → Type 0
  IsFresh g =
      (engine : E)
      → g.sem_engine ≡ some engine
      → g.sem_dirty ≡ false
      → engine ≡ index (values g.symbols)

  answer_right :
      (g : CodeGraph E) (query : Text) (bound : ℕ) (o : Option E) (dirty : Bool)
      → ((engine : E) → o ≡ some engine → dirty ≡ false → engine ≡ index (values g.symbols))
      → IsFresh g
      → ((answer index ask g query bound o dirty).0 ≡ ask (index (values g.symbols)) query bound)
        × ((answer index ask g query bound o dirty).1.symbols ≡ g.symbols)
        × IsFresh (answer index ask g query bound o dirty).1
  unfolding IsFresh
  answer_right g query bound none dirty f fresh = (refl, refl, λ engine e d. ground (arith, e))
  answer_right g query bound (some engine) true f fresh =
      (refl, refl, λ other e d. ground (arith, e))
  answer_right g query bound (some engine) false f fresh =
      (ap (λ x. ask x query bound) (f engine refl refl), refl, fresh)

  IsFresh-after : (g : CodeGraph E) (c : Call) → IsFresh g → IsFresh (after_call g c)
  unfolding IsFresh replace semantic_search
  IsFresh-after g (replace_call symbols n) fresh = λ engine e d. ground (arith, e)
  IsFresh-after g (search_call query limit) fresh =
      (answer_right g query (if limit == 0 then 20 else limit) g.sem_engine g.sem_dirty fresh
        fresh).2

  IsFresh-after_calls : (g : CodeGraph E) (cs : List Call) → IsFresh g → IsFresh (after_calls g cs)
  IsFresh-after_calls g [] fresh = fresh
  IsFresh-after_calls g (c ∷ cs) fresh =
      IsFresh-after_calls (after_call g c) cs (IsFresh-after g c fresh)

  IsFresh-new : IsFresh new_graph
  unfolding IsFresh new_graph
  IsFresh-new engine e d = ground (arith, e)

  -- After any calls, SemanticSearch answers as an engine would that was just built from the symbols
  -- that the graph then has, and it leaves those symbols as they are.
  pub semantic_search_fresh :
      (cs : List Call) (query : Text) (limit : ℕ)
      → let g = after_calls new_graph cs in
        ((semantic_search index ask g query limit).0
          ≡ ask (index (values g.symbols)) query (if limit == 0 then 20 else limit))
        × ((semantic_search index ask g query limit).1.symbols ≡ g.symbols)
  unfolding IsFresh semantic_search
  semantic_search_fresh cs query limit =
      let g = after_calls new_graph cs in
      let fresh = IsFresh-after_calls new_graph cs IsFresh-new in
      let (said, kept, _) =
        answer_right g query (if limit == 0 then 20 else limit) g.sem_engine g.sem_dirty fresh
          fresh in
      (said, kept)
