-- ===== src/Prism/Tracker/Lru.antt =====
-- The tracker of tracker.go against a list of entries in the order of their last use.
use grove_suite.Prelude.{
  ℕ, zero, suc, ◌≡◌, refl, sym, ap, ◌∙◌, subst, true, ltb, leb, List, [], ◌∷◌, Option, none, some,
  length, take, Text, text_eq_iff, text_eq_refl, inl, inr, arith, Bool-cases, Option-cases, lookup,
  insert, delete, lookup-insert, lookup-delete,
}
use grove_suite.Prism.Tracker.{
  Entry, Element, Tracker, deref, unlink, back, evict_oldest, record_new, record_again, record_file,
}
use grove_suite.Prism.Tracker.Elements.{
  files, seen, without, number_at, no_path, linked, below, no_path-of_none, seen-number_at-none,
  without-number_at-none, number_at-seen-none, below-no_number, below-suc, seen-file_path,
  deref-number_at, files-unlink, number_at-unlink, linked-unlink, below-unlink,
  no_number-unlink_self, length-unlink, back-length, below-number_at, number_at-back,
  files-unlink-back,
}

-- The table and the list agree, nothing stands twice, and the capacity is kept.
pub record WellFormed (t : Tracker) : Type 0 where
  pub agree : (p : Text) → lookup p t.entries ≡ number_at p t.lru
  pub linked_lru : linked t.lru ≡ true
  pub below_next : below t.next t.lru ≡ true
  pub bounded : leb (length t.lru) t.max_files ≡ true

abbrev times_seen : Option Entry → ℕ
times_seen none = 0
times_seen (some e) = e.access_count

-- The entries after a delivery: the file in front, the others in their order, cut at the capacity.
unfoldable pub delivered : ℕ → Text → Text → ℕ → Text → List Entry → List Entry
delivered max path hash tokens level es = take max (
    record {
      file_path = path;
      content_hash = hash;
      token_distance_at_send = tokens;
      disclosure_level = level;
      access_count = suc (times_seen (seen path es));
    }
    ∷ without path es)

take-files : (n : ℕ) (xs : List Element) → leb (length xs) n ≡ true → take n (files xs) ≡ files xs
take-files zero [] b = refl
take-files (suc n) [] b = refl
take-files zero (x ∷ xs) b = absurd (ground (arith, b))
take-files (suc n) (x ∷ xs) b = ap (λ es. x.value ∷ es) (take-files n xs (ground (arith, b)))

gone :
    (t : Tracker) (p : Text) (k : ℕ)
    → WellFormed t
    → number_at p t.lru ≡ some k
    → no_path p (unlink k t.lru) ≡ true
gone t p k w n =
    no_path-of_none p (unlink k t.lru)
      (number_at-unlink p k p t.lru w.linked_lru n ∙ rw (text_eq_refl p) refl)

-- An element is moved to the front, with the same path.
pub moved_front :
    (t : Tracker) (p : Text) (k : ℕ) (e : Entry)
    → WellFormed t
    → number_at p t.lru ≡ some k
    → e.file_path ≡ p
    → WellFormed (record t { lru = record { number = k; value = e } ∷ unlink k t.lru })
moved_front t p k e w n same = record {
  agree = λ q.
      w.agree q
      ∙ (rw same (ground (arith, number_at-unlink p k q t.lru w.linked_lru n, text_eq_iff p q, n)));
  linked_lru = ground (
    arith,
    no_number-unlink_self k t.lru w.linked_lru,
    linked-unlink k t.lru w.linked_lru,
    subst (λ q. no_path q (unlink k t.lru) ≡ true) (sym same) (gone t p k w n),
  );
  below_next = ground (
    arith,
    below-number_at t.next p k t.lru w.below_next n,
    below-unlink k t.next t.lru w.below_next,
  );
  bounded = rw (length-unlink p k t.lru n) w.bounded;
}

module _ (t : Tracker) (agree : (p : Text) → lookup p t.entries ≡ number_at p t.lru)
    (l : linked t.lru ≡ true) (b : below t.next t.lru ≡ true)
    (over : length t.lru ≡ suc t.max_files) where
  evict_oldest-back :
      (el : Element)
      → back t.lru ≡ some el
      → evict_oldest t
        ≡ record t { lru = unlink el.number t.lru; entries = delete el.value.file_path t.entries }
  unfolding evict_oldest
  evict_oldest-back el e = rw (evict_oldest, e) refl

  evict_oldest_refines :
      WellFormed (evict_oldest t) × (files (evict_oldest t).lru ≡ take t.max_files (files t.lru))
  evict_oldest_refines =
      let (el, e) = back-length t.lru t.max_files over in
      let n = number_at-back t.lru el l e in
      rw (evict_oldest-back el e) (
        record {
          agree = λ q.
              lookup-delete el.value.file_path q t.entries
              ∙ (rw (agree q) (sym (number_at-unlink el.value.file_path el.number q t.lru l n)));
          linked_lru = linked-unlink el.number t.lru l;
          below_next = below-unlink el.number t.next t.lru b;
          bounded = ground (arith, length-unlink el.value.file_path el.number t.lru n, over);
        },
        files-unlink-back t.lru el t.max_files l e over,
      )

abbrev pub Tracks : Tracker → List Entry → Type 0
Tracks t es = WellFormed t × (files t.lru ≡ es)

abbrev as_delivered : Text → Text → ℕ → Text → ℕ → Entry
as_delivered path hash tokens level count = record {
  file_path = path;
  content_hash = hash;
  token_distance_at_send = tokens;
  disclosure_level = level;
  access_count = count;
}

module _ (path hash : Text) (tokens : ℕ) (level : Text) (t : Tracker) (w : WellFormed t) where
  after : List Entry
  after = delivered t.max_files path hash tokens level (files t.lru)

  pushed : Tracker
  pushed = record t {
    lru = record { number = t.next; value = as_delivered path hash tokens level 1 } ∷ t.lru;
    entries = insert path t.next t.entries;
    next = suc t.next;
  }

  delivered-new :
      number_at path t.lru ≡ none
      → after ≡ take t.max_files (as_delivered path hash tokens level 1 ∷ files t.lru)
  unfolding after delivered
  delivered-new n = rw (seen-number_at-none path t.lru n, without-number_at-none path t.lru n) refl

  module _ (n : number_at path t.lru ≡ none) where
    pushed-agree : (q : Text) → lookup q pushed.entries ≡ number_at q pushed.lru
    unfolding pushed
    pushed-agree q = lookup-insert path q t.next t.entries ∙ (rw (w.agree q) refl)

    pushed-linked : linked pushed.lru ≡ true
    unfolding pushed
    pushed-linked = ground (
      arith,
      below-no_number t.next t.lru w.below_next,
      no_path-of_none path t.lru n,
      w.linked_lru,
    )

    pushed-below : below pushed.next pushed.lru ≡ true
    unfolding pushed
    pushed-below = ground (arith, below-suc t.next t.lru w.below_next)

    record_new-Tracks : Tracks (record_new path hash tokens level t) after
    unfolding record_new pushed
    record_new-Tracks = elim (Bool-cases (ltb t.max_files (suc (length t.lru)))) [
      | inl over ↦
          rw (record_new, over)
            (let r =
                evict_oldest_refines pushed pushed-agree pushed-linked pushed-below
                  (ground (arith, over, w.bounded)) in
              (r.0, r.1 ∙ sym (delivered-new n)))
      | inr fits ↦
          rw (record_new, fits)
            (
              record {
                agree = pushed-agree;
                linked_lru = pushed-linked;
                below_next = pushed-below;
                bounded = ground (arith, fits);
              },
              sym (delivered-new n ∙ take-files t.max_files pushed.lru (ground (arith, fits))),
            )
    ]

  record_again-Tracks :
      (k : ℕ) → number_at path t.lru ≡ some k → Tracks (record_again k hash tokens level t) after
  unfolding record_again after delivered
  record_again-Tracks k n = elim (Option-cases (deref k t.lru)) [
    | inl nothing ↦ absurd (
        ground (arith, number_at-seen-none path t.lru, deref-number_at path k t.lru w.linked_lru n))
    | inr (e, there) ↦
        (let there' : seen path (files t.lru) ≡ some e =
            sym (deref-number_at path k t.lru w.linked_lru n) ∙ there in
          let same = seen-file_path path (files t.lru) e there' in
          let new : Text → Entry = λ p. as_delivered p hash tokens level (suc e.access_count) in
          rw (record_again, there, there')
            (
              moved_front t path k (new e.file_path) w n same,
              ap (λ p. new p ∷ files (unlink k t.lru)) same
                  ∙ sym (
                      take-files t.max_files
                        (record { number = k; value = new path } ∷ unlink k t.lru)
                        (rw (length-unlink path k t.lru n) w.bounded))
                  ∙ ap (λ es. take t.max_files (new path ∷ es))
                      (files-unlink path k t.lru w.linked_lru n),
            ))
  ]

  -- Where table and list agree, Record keeps them so, and what is listed is as delivered: the file
  -- in front with the new data and one access more, the others in their order, cut at the capacity.
  pub record_file_refines :
      WellFormed (record_file path hash tokens level t)
      × (files (record_file path hash tokens level t).lru
          ≡ delivered t.max_files path hash tokens level (files t.lru))
  unfolding record_file after
  record_file_refines = elim (Option-cases (number_at path t.lru)) [
    | inl n ↦ rw (record_file, w.agree path, n) (record_new-Tracks n)
    | inr (k, n) ↦ rw (record_file, w.agree path, n) (record_again-Tracks k n)
  ]
