-- ===== src/Grove/Regions/Conflicts.antt =====
-- Which isolated change regions conflict, and what their locks say of it.
use grove_suite.Prelude.{
  ◌≡◌, ◌⊎◌, ◌↔◌, refl, sym, subst, ◌∙◌, true, false, if◌then◌else◌, ltb, List, [], ◌++◌, Text,
  codes, text_lt, member, add_keys, arith, map, is_empty, keep_if, length,
}
use grove_suite.Prelude.Members.{
  Among, Among-sort_stable, Among-map, kept_iff, member-add_keys, append_cancel,
}
use grove_suite.Grove.Data.{SymbolRecord, IsolatedChangeRegion}
use grove_suite.Grove.Graph.{CodeGraph, search}
use grove_suite.Grove.Regions.{
  map_keys, slice_set, detect_conflicts, lock_keys_of, region, compute_icr,
}

-- A text stands in both lists.
abbrev pub Common : List Text → List Text → Type 0
Common xs ys = (x : Text) × Among x xs × Among x ys

overlap_iff :
    (xs ys : List Text)
    → (ltb 0 (length (keep_if (λ y. member y (slice_set xs)) ys)) ≡ true) ↔ Common xs ys
unfolding slice_set member
overlap_iff xs ys =
    let kept = kept_iff (λ y. member y (slice_set xs)) ys in
    (
      λ h. let (y, there, e) = kept.0 h in (y, ground (arith, member-add_keys y xs [], e), there),
      λ (y, here, there). kept.1 (y, there, ground (arith, member-add_keys y xs [], here)),
    )

-- Two regions conflict exactly where a symbol or a file is exclusive to both.
pub detect_conflicts_iff :
    (a b : IsolatedChangeRegion)
    → ((detect_conflicts a b).conflicts ≡ true)
      ↔ (Common a.exclusive b.exclusive ⊎ Common a.exclusive_files b.exclusive_files)
unfolding detect_conflicts
detect_conflicts_iff a b =
    ground
      (arith, overlap_iff a.exclusive b.exclusive, overlap_iff a.exclusive_files b.exclusive_files)

lock_of : Text → Text
lock_of f = codes "grove:lock:file:" ++ f

lock_iff :
    (key : Text) (files : List Text)
    → Among key (lock_keys_of files) ↔ ((f : Text) × Among f files × (key ≡ lock_of f))
unfolding lock_keys_of lock_of
lock_iff key files =
    ground (arith, Among-sort_stable text_lt key (map lock_of files), Among-map lock_of key files)

locks_iff :
    (xs ys : List Text)
    → Common (lock_keys_of xs) (lock_keys_of ys) ↔ Common (map_keys xs) (map_keys ys)
unfolding map_keys lock_of
locks_iff xs ys = (
  λ (key, here, there).
      let (f, m, e) = (lock_iff key xs).0 here in
      let (g, n, e') = (lock_iff key ys).0 there in
      let same : f ≡ g = append_cancel (codes "grove:lock:file:") f g (sym e ∙ e') in
      (
        f,
        (Among-sort_stable text_lt f xs).1 m,
        (Among-sort_stable text_lt f ys).1 (subst (λ h. Among h ys) (sym same) n),
      ),
  λ (f, here, there). (
    lock_of f,
    (lock_iff (lock_of f) xs).1 (f, (Among-sort_stable text_lt f xs).0 here, refl),
    (lock_iff (lock_of f) ys).1 (f, (Among-sort_stable text_lt f ys).0 there, refl),
  ),
)

module _ {E : Type 0} (short_sha : Text → Text) where
  region_locks :
      (g h : CodeGraph E) (i j : Text) (ss ts : List SymbolRecord)
      → let a = region short_sha g i ss in
        let b = region short_sha h j ts in
        Common a.lock_keys b.lock_keys ↔ Common a.exclusive_files b.exclusive_files
  unfolding region
  region_locks g h i j ss ts =
      locks_iff (add_keys (map (λ (s : SymbolRecord). s.file_path) ss) [])
        (add_keys (map (λ (s : SymbolRecord). s.file_path) ts) [])

  -- The regions of two intents, on one graph or two, want a common lock exactly where a file is
  -- exclusive to both; regions that do not conflict never wait for each other's locks.
  pub compute_icr-locks :
      (g h : CodeGraph E) (i j : Text)
      → let a = compute_icr short_sha g i in
        let b = compute_icr short_sha h j in
        (Common a.lock_keys b.lock_keys ↔ Common a.exclusive_files b.exclusive_files)
        × ((detect_conflicts a b).conflicts ≡ false → Common a.lock_keys b.lock_keys → ⊥)
  unfolding compute_icr
  compute_icr-locks g h i j =
      let a = compute_icr short_sha g i in
      let b = compute_icr short_sha h j in
      let locks = region_locks g h i j (seeds_of g i) (seeds_of h j) in
      (locks, λ free common. ground (arith, detect_conflicts_iff a b, locks, common, free))
    where
      seeds_of : CodeGraph E → Text → List SymbolRecord
      seeds_of g i = let ss = search g i 20 in if is_empty ss then search g [] 20 else ss
