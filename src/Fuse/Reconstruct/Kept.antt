-- ===== src/Fuse/Reconstruct/Kept.antt =====
-- No merged symbol is lost from the file, if the spans of ours do not overlap.
use grove_suite.Prelude.{
  ℕ, zero, suc, ◌-◌, ◌≤◌, ◌≡◌, ◌⊎◌, refl, sym, ap, subst, ◌∙◌, Bool, true, false, not, ◌&&◌, le→leb,
  if◌then◌else◌, Option, none, some, List, [], ◌∷◌, ◌++◌, map, take, drop, length, is_empty, Text,
  text_eq, text_eq_iff, arith, inl, inr, Bool-cases, Option-cases, Map, lookup, insert,
  lookup-insert, member,
}
use grove_suite.Prelude.Members.{Among, Among-append, Among-sort_stable}
use grove_suite.Fuse.Data.{SymbolData, ImportStatement}
use grove_suite.Fuse.Symbols.{insert_all, symbols_to_map}
use grove_suite.Fuse.Reconstruct.{
  Span, span_symbol, span_skip, earlier, symbol_span, import_span, spans_of, used_keys, emitted,
  substitute, inject_imports, insert_at, render_import_block, added, merged_lines,
}

-- The spans stand in order from a line on, each behind the one before it, up to the last line.
abbrev pub InOrder : ℕ → ℕ → List Span → Type 0
InOrder count line [] = Unit
InOrder count line (s ∷ ss) = (line ≤ s.start) × (s.start ≤ count) × InOrder count (suc s.end) ss

emitted-Among :
    (block : Text) (out : Bool) (t s : Span)
    → s ≡ t
    → s.kind ≡ span_symbol
    → Among s.body (emitted block out t t.kind).0
unfolding emitted
emitted-Among block out t s same k =
    let kind : t.kind ≡ span_symbol = ap (λ (u : Span). u.kind) (sym same) ∙ k in
    subst (λ d. Among s.body (emitted block out t d).0) (sym kind)
      (inl (ap (λ (u : Span). u.body) same))

-- Every symbol that has a span in order has its body among the lines.
substitute-Among :
    (lines : List Text) (block : Text) (line : ℕ) (out : Bool) (ss : List Span) (s : Span)
    → InOrder (length lines) line ss
    → Among s ss
    → s.kind ≡ span_symbol
    → Among s.body (substitute lines block line out ss).0
unfolding substitute emitted
substitute-Among lines block line out [] s ordered m k = absurd m
substitute-Among lines block line out (t ∷ ss) s (after, within, ordered) m k =
    let (here, out') = emitted block out t t.kind in
    let (rest, last) = substitute lines block (suc t.end) out' ss in
    let before = take (t.start - line) (drop (line - 1) lines) in
    let start_ok = le→leb line t.start after in
    let end_ok = le→leb t.start (length lines) within in
    rw (start_ok, end_ok)
      ((Among-append s.body before (here ++ rest)).1 (
        inr (
          (Among-append s.body here rest).1 (elim m [
            | inl same ↦ inl (emitted-Among block out t s same k)
            | inr later ↦ inr (substitute-Among lines block (suc t.end) out' ss s ordered later k)
          ]))))

take-drop : (n : ℕ) (xs : List Text) → take n xs ++ drop n xs ≡ xs
take-drop zero xs = refl
take-drop (suc n) [] = refl
take-drop (suc n) (x ∷ xs) = ap (λ ys. x ∷ ys) (take-drop n xs)

module _ (quoted : Text → Text) where
  inject_imports-Among :
      (x : Text) (lines : List Text) (block lang : Text)
      → Among x lines
      → Among x (inject_imports quoted lines block lang)
  unfolding inject_imports
  inject_imports-Among x lines block lang m =
      let at = insert_at quoted lang 0 lines in
      let m' = subst (Among x) (sym (take-drop at lines)) m in
      ground (
        arith,
        Among-append x (take at lines) (drop at lines),
        Among-append x (take at lines) ([] ∷ block ∷ [] ∷ drop at lines),
        m',
      )

  added-Among :
      (used : List Text) (merged : List SymbolData) (m : SymbolData)
      → Among m merged
      → member m.qualified_name used ≡ false
      → Among m.body (added quoted used merged)
  added-Among used [] m here h = absurd here
  added-Among used (s ∷ ss) m here h = elim here [
    | inl same ↦
        let gone : member s.qualified_name used ≡ false =
          ap (λ (x : SymbolData). member x.qualified_name used) (sym same) ∙ h in
        rw gone (inr (inl (ap (λ (x : SymbolData). x.body) same)))
    | inr later ↦ elim (Bool-cases (member s.qualified_name used)) [
      | inl old ↦ rw old (added-Among used ss m later h)
      | inr new ↦ rw new (inr (inr (added-Among used ss m later h)))
    ]
  ]

insert_all-known :
    (k : Text) (ss : List SymbolData) (ms : Map SymbolData) (m : SymbolData)
    → lookup k (insert_all ss ms) ≡ some m
    → (lookup k ms ≡ some m) ⊎ (Among m ss × (m.qualified_name ≡ k))
unfolding insert_all
insert_all-known k [] ms m h = inl h
insert_all-known k (s ∷ ss) ms m h =
    elim (insert_all-known k ss (insert s.qualified_name s ms) m h) [
      | inl put ↦ elim (Bool-cases (text_eq s.qualified_name k)) [
        | inl same ↦
            let is : s ≡ m = ground (arith, lookup-insert s.qualified_name k s ms, same, put) in
            inr (
              inl (sym is),
              ap (λ (x : SymbolData). x.qualified_name) (sym is)
                  ∙ (text_eq_iff s.qualified_name k).0 same,
            )
        | inr other ↦ inl (ground (arith, lookup-insert s.qualified_name k s ms, other, put))
      ]
      | inr (there, named) ↦ inr (inr there, named)
    ]

shell-Among :
    (quoted : Text → Text) (put : Bool) (x : Text) (out : List Text) (block lang : Text)
    → Among x out
    → Among x (if put then inject_imports quoted out block lang else out)
shell-Among quoted true x out block lang m = inject_imports-Among quoted x out block lang m
shell-Among quoted false x out block lang m = m

symbol_span-kept :
    (ms : Map SymbolData) (s m : SymbolData)
    → lookup s.qualified_name ms ≡ some m
    → symbol_span ms s
      ≡ record { start = s.span.start; end = s.span.end; body = m.body; kind = span_symbol }
symbol_span-kept ms s m at =
    ap
      (λ (o : Option SymbolData).
        let r : Span = elim o [
          | none ↦ record { start = s.span.start; end = s.span.end; body = []; kind = span_skip }
          | some x ↦ record {
            start = s.span.start;
            end = s.span.end;
            body = x.body;
            kind = span_symbol;
          }
        ] in
        r)
      at

used_keys-tail :
    (k : Text) (o : SymbolData) (os : List SymbolData) (ms : Map SymbolData)
    → text_eq o.qualified_name k ≡ false
    → member k (used_keys (o ∷ os) ms) ≡ true
    → member k (used_keys os ms) ≡ true
unfolding used_keys member
used_keys-tail k o os ms other h = elim (Option-cases (lookup o.qualified_name ms)) [
  | inl gone ↦ ground (arith, gone, h)
  | inr (m, at) ↦ ground (arith, at, other, h)
]

-- The span of a symbol of ours that the merge kept.
used-span :
    (k : Text) (ours : List SymbolData) (ms : Map SymbolData) (m : SymbolData)
    → lookup k ms ≡ some m
    → member k (used_keys ours ms) ≡ true
    → (s : Span) × Among s (map (symbol_span ms) ours) × (s.kind ≡ span_symbol) × (s.body ≡ m.body)
unfolding used_keys member
used-span k [] ms m at h = ground (arith, h)
used-span k (o ∷ os) ms m at h = elim (Bool-cases (text_eq o.qualified_name k)) [
  | inl same ↦
      let at-o : lookup o.qualified_name ms ≡ some m =
        ap (λ j. lookup j ms) ((text_eq_iff o.qualified_name k).0 same) ∙ at in
      let is = symbol_span-kept ms o m at-o in
      (symbol_span ms o, inl refl, ap (λ (x : Span). x.kind) is, ap (λ (x : Span). x.body) is)
  | inr other ↦
      let (s, there, kind, body) = used-span k os ms m at (used_keys-tail k o os ms other h) in
      (s, inr there, kind, body)
]

module _ (quoted : Text → Text) where
  -- Where the spans of the symbols and imports of ours stand in order, none inside another and all
  -- within the file, the body of every merged symbol is among the lines of the merged file.
  pub merged_lines-Among :
      (lines : List Text) (ours merged : List SymbolData)
      (imports ours_imports : List ImportStatement) (lang k : Text) (m : SymbolData)
      → InOrder (length lines) 1 (spans_of ours merged ours_imports)
      → lookup k (symbols_to_map merged) ≡ some m
      → Among m.body (merged_lines quoted lines ours merged imports ours_imports lang)
  unfolding merged_lines spans_of symbols_to_map lookup
  merged_lines-Among lines ours merged imports ours_imports lang k m ordered at =
      let ms = symbols_to_map merged in
      let used = used_keys ours ms in
      let block = render_import_block quoted imports lang in
      let (out, is_out) = substitute lines block 1 false (spans_of ours merged ours_imports) in
      let put = not is_out && (not (is_empty block) && not (is_empty imports)) in
      let shell = if put then inject_imports quoted out block lang else out in
      (Among-append m.body shell (added quoted used merged)).1 (elim (Bool-cases (member k used)) [
        | inl kept ↦ inl (shell-Among quoted put m.body out block lang (in_out kept))
        | inr new ↦ elim (insert_all-known k merged [] m at) [
          | inl in_empty ↦ ground (arith, in_empty)
          | inr (there, named) ↦
              inr (added-Among quoted used merged m there (ap (λ j. member j used) named ∙ new))
        ]
      ])
    where
      in_out :
          member k (used_keys ours (symbols_to_map merged)) ≡ true
          → Among m.body
              (substitute lines
                (render_import_block quoted imports lang)
                1
                false
                (spans_of ours merged ours_imports)).0
      in_out kept =
          let ms = symbols_to_map merged in
          let block = render_import_block quoted imports lang in
          let spans = spans_of ours merged ours_imports in
          let (s, there, kind, body) = used-span k ours ms m at kept in
          let first = map (symbol_span ms) ours in
          let last = map import_span ours_imports in
          let among =
            (Among-sort_stable earlier s (first ++ last)).1
              ((Among-append s first last).1 (inl there)) in
          subst (λ b. Among b (substitute lines block 1 false spans).0) body
            (substitute-Among lines block 1 false spans s ordered among kind)
