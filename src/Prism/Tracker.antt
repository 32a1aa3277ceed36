-- ===== src/Prism/Tracker.antt =====
-- prism/internal/session/tracker.go: the least-recently-used table of delivered files. An element of
-- container/list is its number, which stands for the pointer that the table `entries` keeps; the
-- list holds the elements with their entries, front first. The mutex makes the calls atomic.
pub mod Elements
pub mod Lru
pub mod Calls
use grove_suite.Prelude.{
  ℕ, zero, suc, ◌+◌, Bool, true, false, ◌==◌, ltb, if◌then◌else◌, List, [], ◌∷◌, Option, none, some,
  length, Text, text_eq, Map, lookup, insert, delete,
}

pub record Entry : Type 0 where
  pub file_path : Text
  pub content_hash : Text
  pub token_distance_at_send : ℕ
  pub disclosure_level : Text
  pub access_count : ℕ

pub record Element : Type 0 where
  pub number : ℕ
  pub value : Entry

pub record Tracker : Type 0 where
  pub max_files : ℕ
  pub entries : Map ℕ
  pub lru : List Element
  pub next : ℕ

-- The capacity of a tracker that is asked for none is 50000; a negative one is 0 here.
unfoldable pub new_tracker : ℕ → Tracker
new_tracker max_files = record {
  max_files = if max_files == 0 then 50000 else max_files;
  entries = [];
  lru = [];
  next = 0;
}

-- What the pointer `k` points to.
unfoldable pub deref : ℕ → List Element → Option Entry
deref k [] = none
deref k (x ∷ xs) = if x.number == k then some x.value else deref k xs

unfoldable pub unlink : ℕ → List Element → List Element
unlink k [] = []
unlink k (x ∷ xs) = let rest = unlink k xs in if x.number == k then xs else x ∷ rest

unfoldable pub back : List Element → Option Element
back [] = none
back (x ∷ []) = some x
back (x ∷ y ∷ xs) = back (y ∷ xs)

unfoldable pub evict_oldest : Tracker → Tracker
unfolding back unlink delete
evict_oldest t = elim (back t.lru) [
  | none ↦ t
  | some el ↦ record t {
    lru = unlink el.number t.lru;
    entries = delete el.value.file_path t.entries;
  }
]

-- The arm of `Record` for a file that is not tracked.
unfoldable pub record_new : Text → Text → ℕ → Text → Tracker → Tracker
unfolding evict_oldest insert
record_new path hash tokens level t =
    let e : Entry = record {
      file_path = path;
      content_hash = hash;
      token_distance_at_send = tokens;
      disclosure_level = level;
      access_count = 1;
    } in
    let pushed : Tracker = record t {
      lru = record { number = t.next; value = e } ∷ t.lru;
      entries = insert path t.next t.entries;
      next = suc t.next;
    } in
    if ltb pushed.max_files (length pushed.lru) then evict_oldest pushed else pushed

-- The arm for a file that is tracked as the element `k`.
unfoldable pub record_again : ℕ → Text → ℕ → Text → Tracker → Tracker
unfolding deref unlink
record_again k hash tokens level t = elim (deref k t.lru) [
  | none ↦ t
  | some e ↦ record t {
    lru =
        record {
          number = k;
          value = record e {
            content_hash = hash;
            token_distance_at_send = tokens;
            disclosure_level = level;
            access_count = suc e.access_count;
          };
        }
        ∷ unlink k t.lru;
  }
]

unfoldable pub record_file : Text → Text → ℕ → Text → Tracker → Tracker
unfolding record_new record_again lookup
record_file path hash tokens level t = elim (lookup path t.entries) [
  | none ↦ record_new path hash tokens level t
  | some k ↦ record_again k hash tokens level t
]

-- `Lookup`: the entry, where there is one, with whether the hash is the same.
unfoldable pub lookup_file : Text → Text → Tracker → Option (Entry × Bool) × Tracker
unfolding deref unlink lookup
lookup_file path hash t = elim (lookup path t.entries) [
  | none ↦ (none, t)
  | some k ↦ elim (deref k t.lru) [
    | none ↦ (none, t)
    | some e ↦ (
      some (e, text_eq e.content_hash hash),
      record t { lru = record { number = k; value = e } ∷ unlink k t.lru },
    )
  ]
]

unfoldable pub len : Tracker → ℕ
len t = length t.lru

unfoldable pub reset : Tracker → Tracker
reset t = record t { entries = []; lru = [] }
