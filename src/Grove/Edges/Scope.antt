-- ===== src/Grove/Edges/Scope.antt =====
-- The edges that BuildEdges draws from names, and the scope in which it looks the names up.
use grove_suite.Prelude.{
  ℕ, ◌≡◌, ◌≢◌, ◌⊎◌, inl, inr, refl, sym, ap, subst, ◌∙◌, Bool, true, false, not, ◌&&◌,
  if◌then◌else◌, concat_map, and_left, and_right, List, [], ◌∷◌, ◌++◌, Text, codes, text_eq,
  text_eq_iff, member, arith, is_empty, keep_if, Map, lookup-insert, Bool-cases,
}
use grove_suite.Prelude.Strings.{to_lower, after_last}
use grove_suite.Prelude.Members.{Among, Among-map, Among-append, Among-keep_if, Among-concat_map}
use grove_suite.Grove.Data.{SymbolRecord, CallSite, Edge, EdgeType, edge_calls, edge_uses_type}
use grove_suite.Grove.EdgeIndex.{
  EdgeIndex, entries, append_at, index_symbol, index_from, new_edge_index, named, imported_files,
  strip_comments_and_strings,
}
use grove_suite.Grove.Patterns.{Patterns, edge, is_callable}
use grove_suite.Grove.Edges.{
  once, uses_of, build_uses_type, is_callee, in_scope_of, callees, site_calls, text_calls, calls_of,
  build_calls,
}

-- The edges drawn from the names in a signature or a body.
abbrev pub is_reference : EdgeType → Bool
is_reference edge_calls = true
is_reference edge_uses_type = true
is_reference other = false

entries-append_at :
    (j k : Text) (s : SymbolRecord) (m : Map (List SymbolRecord))
    → entries j (append_at k s m) ≡ (if text_eq k j then entries k m ++ s ∷ [] else entries j m)
entries-append_at j k s m = elim (Bool-cases (text_eq k j)) [
  | inl h ↦ ground (arith, lookup-insert k j (entries k m ++ s ∷ []) m, h)
  | inr h ↦ ground (arith, lookup-insert k j (entries k m ++ s ∷ []) m, h)
]

Among-append_at :
    (t : SymbolRecord) (j k : Text) (s : SymbolRecord) (m : Map (List SymbolRecord))
    → Among t (entries j (append_at k s m))
    → (t ≡ s) ⊎ ((i : Text) × Among t (entries i m))
Among-append_at t j k s m here =
    let at = subst (Among t) (entries-append_at j k s m) here in
    elim (Bool-cases (text_eq k j)) [
      | inl h ↦
          let split = Among-append t (entries k m) (s ∷ []) in
          elim (split.0 (rw h at at)) [
            | inl old ↦ inr (k, old)
            | inr (inl same) ↦ inl same
            | inr (inr none_left) ↦ absurd none_left
          ]
      | inr h ↦ inr (j, rw h at at)
    ]

module _ (symbols : List SymbolRecord) where
  -- What a name leads to is one of the symbols.
  Indexed : EdgeIndex → Type 0
  Indexed idx = (k : Text) (t : SymbolRecord) → Among t (entries k idx.by_name) → Among t symbols

  Indexed-index_symbol :
      (idx : EdgeIndex) (s : SymbolRecord)
      → Among s symbols
      → Indexed idx
      → Indexed (index_symbol idx s)
  unfolding Indexed index_symbol
  Indexed-index_symbol idx s m known k t here =
      elim (Among-append_at t k (to_lower s.name) s idx.by_name here) [
        | inl same ↦ subst (λ u. Among u symbols) (sym same) m
        | inr (i, old) ↦ known i t old
      ]

  Indexed-index_from :
      (idx : EdgeIndex) (ss : List SymbolRecord)
      → ((s : SymbolRecord) → Among s ss → Among s symbols)
      → Indexed idx
      → Indexed (index_from idx ss)
  unfolding index_from
  Indexed-index_from idx [] all known = known
  Indexed-index_from idx (s ∷ ss) all known =
      Indexed-index_from (index_symbol idx s) ss (λ t m. all t (inr m))
        (Indexed-index_symbol idx s (all s (inl refl)) known)

  named-Among :
      (name : Text) (t : SymbolRecord)
      → Among t (named (new_edge_index symbols) name)
      → Among t symbols
  unfolding named new_edge_index Indexed
  named-Among name t =
      Indexed-index_from (record { by_name = []; by_file = []; file_imports = [] }) symbols
        (λ s m. m) (λ k t m. absurd m) (to_lower name) t

  -- Both ends are symbols, and the second is in scope of the first's file; a call leads from a
  -- callable symbol to another one.
  pub record IsScoped (e : Edge) : Type 0 where
    pub source : SymbolRecord
    pub target : SymbolRecord
    pub source_known : Among source symbols
    pub target_known : Among target symbols
    pub ends : (e.from ≡ source.id) × (e.to ≡ target.id)
    pub scope :
        member target.file_path (imported_files (new_edge_index symbols) source.file_path) ≡ true
    pub callable :
        e.type ≡ edge_calls
        → (is_callable source.kind ≡ true)
          × (is_callable target.kind ≡ true)
          × (target.id ≢ source.id)

  module _ (patterns : Patterns) where
    abbrev idx : EdgeIndex
    idx = new_edge_index symbols

    pub once-Among :
        (sep : Text) (seen : List Text) (e : Edge) (es : List Edge)
        → Among e (once sep seen es)
        → Among e es
    unfolding once
    once-Among sep seen e [] m = m
    once-Among sep seen e (f ∷ es) m =
        let old = member (f.from ++ (sep ++ f.to)) seen in
        elim (Bool-cases old) [
          | inl h ↦ inr (once-Among sep seen e es (rw h at m))
          | inr h ↦ elim (the_rest h) [
            | inl same ↦ inl same
            | inr r ↦ inr (once-Among sep ((f.from ++ (sep ++ f.to)) ∷ seen) e es r)
          ]
        ]
      where
        the_rest :
            member (f.from ++ (sep ++ f.to)) seen ≡ false
            → (e ≡ f) ⊎ Among e (once sep ((f.from ++ (sep ++ f.to)) ∷ seen) es)
        the_rest h = rw h at m

    uses_of-IsScoped :
        (s : SymbolRecord) (e : Edge)
        → Among s symbols
        → Among e (uses_of patterns idx s)
        → IsScoped e
    unfolding uses_of
    uses_of-IsScoped s e known m =
        let named_in =
          concat_map (named idx)
            (keep_if (λ name. not (text_eq name s.name)) (patterns.uses_type_ident s.signature)) in
        elim (Bool-cases (is_empty s.signature)) [
          | inl h ↦ absurd (rw h at m)
          | inr h ↦
              let (t, there, e-is) =
                (Among-map (λ (t : SymbolRecord). edge s.id t.id edge_uses_type 50) e
                    (keep_if (in_scope_of patterns idx s) named_in)).0
                  (rw h at m) in
              let (among, scope) =
                (Among-keep_if (in_scope_of patterns idx s) t named_in).0 there in
              let (name, _, by_name) = (Among-concat_map (named idx) t _).0 among in
              record {
                source = s;
                target = t;
                source_known = known;
                target_known = named-Among name t by_name;
                ends = (ap (λ (x : Edge). x.from) e-is, ap (λ (x : Edge). x.to) e-is);
                scope = scope;
                callable = λ call. ground (arith, sym call ∙ ap (λ (x : Edge). x.type) e-is);
              }
        ]

    is_callee-IsScoped :
        (s t : SymbolRecord) (n : ℕ)
        → Among s symbols
        → Among t symbols
        → is_callable s.kind ≡ true
        → is_callee patterns idx s t ≡ true
        → IsScoped (edge s.id t.id edge_calls n)
    is_callee-IsScoped s t n known there c h =
        let callable =
          and_right (not (text_eq t.id s.id)) (is_callable t.kind && in_scope_of patterns idx s t)
            h in
        record {
          source = s;
          target = t;
          source_known = known;
          target_known = there;
          ends = (refl, refl);
          scope = and_right (is_callable t.kind) (in_scope_of patterns idx s t) callable;
          callable = λ e. (
            c,
            and_left (is_callable t.kind) (in_scope_of patterns idx s t) callable,
            ground (arith, text_eq_iff t.id s.id, h),
          );
        }

    callees-Among :
        (site : CallSite) (t : SymbolRecord) → Among t (callees patterns idx site) → Among t symbols
    unfolding callees
    callees-Among site t m = elim (Bool-cases (is_empty (after_last 46 site.callee))) [
      | inl h ↦ absurd (rw h at m)
      | inr h ↦ named-Among (after_last 46 site.callee) t (rw h at m)
    ]

    site_calls-IsScoped :
        (s : SymbolRecord) (e : Edge)
        → Among s symbols
        → is_callable s.kind ≡ true
        → Among e (site_calls patterns idx s)
        → IsScoped e
    unfolding site_calls
    site_calls-IsScoped s e known c m =
        let (t, there, e-is) =
          (Among-map (λ (t : SymbolRecord). edge s.id t.id edge_calls 95) e
              (keep_if (is_callee patterns idx s)
                (concat_map (callees patterns idx) s.call_sites))).0
            m in
        let (among, callee) = (Among-keep_if (is_callee patterns idx s) t _).0 there in
        let (site, _, by_name) = (Among-concat_map (callees patterns idx) t s.call_sites).0 among in
        subst IsScoped (sym e-is)
          (is_callee-IsScoped s t 95 known (callees-Among site t by_name) c callee)

    text_calls-IsScoped :
        (s : SymbolRecord) (e : Edge)
        → Among s symbols
        → is_callable s.kind ≡ true
        → Among e (text_calls patterns idx symbols s)
        → IsScoped e
    unfolding text_calls
    text_calls-IsScoped s e known c m =
        let stripped = strip_comments_and_strings s.raw_text in
        elim (Bool-cases (is_empty s.raw_text)) [
          | inl h ↦ absurd (rw h at m)
          | inr h ↦
              let (t, there, e-is) =
                (Among-map
                    (λ (t : SymbolRecord).
                      edge s.id t.id edge_calls
                        (if text_eq t.file_path s.file_path then 85 else 60))
                    e _).0
                  (rw h at m) in
              let (among, both) =
                (Among-keep_if
                    (λ (t : SymbolRecord).
                      is_callee patterns idx s t && patterns.is_called t.name stripped)
                    t symbols).0
                  there in
              let callee =
                and_left (is_callee patterns idx s t) (patterns.is_called t.name stripped) both in
              subst IsScoped (sym e-is) (is_callee-IsScoped s t _ known among c callee)
        ]

    pub build_uses_type-IsScoped :
        (e : Edge) → Among e (build_uses_type patterns idx symbols) → IsScoped e
    unfolding build_uses_type
    build_uses_type-IsScoped e m =
        let es = concat_map (uses_of patterns idx) symbols in
        let (s, known, there) =
          (Among-concat_map (uses_of patterns idx) e symbols).0
            (once-Among (codes "::uses-type::") [] e es m) in
        uses_of-IsScoped s e known there

    calls_of-IsScoped :
        (s : SymbolRecord) (e : Edge)
        → Among s symbols
        → Among e (calls_of patterns idx symbols s)
        → IsScoped e
    unfolding calls_of
    calls_of-IsScoped s e known m = elim (Bool-cases (is_callable s.kind)) [
      | inl c ↦ elim (Bool-cases (is_empty s.call_sites)) [
        | inl h ↦ text_calls-IsScoped s e known c (rw (c, h) at m)
        | inr h ↦ site_calls-IsScoped s e known c (rw (c, h) at m)
      ]
      | inr c ↦ absurd (rw c at m)
    ]

    pub build_calls-IsScoped : (e : Edge) → Among e (build_calls patterns idx symbols) → IsScoped e
    unfolding build_calls
    build_calls-IsScoped e m =
        let es = concat_map (calls_of patterns idx symbols) symbols in
        let (s, known, there) =
          (Among-concat_map (calls_of patterns idx symbols) e symbols).0
            (once-Among (codes "::calls::") [] e es m) in
        calls_of-IsScoped s e known there
