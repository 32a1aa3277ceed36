-- ===== src/Fuse/Config.antt =====
-- fuse/internal/merge/strategies/config.go: the deep merge of JSON, YAML and TOML. The parsers and
-- encoders of a language, and the JSON text by which two values are compared, are parameters.
-- Scalars and slices are compared whole and never looked into, so they are one kind of value, by
-- their JSON text. A map's entries are in some order, as in Go.
pub mod OneSided
use Prim.Native.String.{String}
use grove_suite.Prelude.{
  ℕ, ◌*◌, Bool, true, false, ◌&&◌, ◌||◌, if◌then◌else◌, Option, none, some, Text, codes, text_eq,
}
use grove_suite.Fuse.Line.{LineMergeResult, line_merge}

mutual
  pub data Value : Type 0 where
    nil : Value
    whole : Text → Value
    object : Entries → Value

  pub data Entries : Type 0 where
    no_entries : Entries
    entry : Text → Value → Entries → Entries

abbrev pub entry_of : Text → Entries → Option Value
entry_of k no_entries = none
entry_of k (entry j v es) = if text_eq j k then some v else entry_of k es

abbrev pub or_nil : Option Value → Value
or_nil none = nil
or_nil (some v) = v

abbrev append_entries : Entries → Entries → Entries
append_entries no_entries fs = fs
append_entries (entry k v es) fs = entry k v (append_entries es fs)

-- The entry of a key that ours has, from what is kept without and what is merged with theirs.
abbrev pub with_theirs : Option Value → Entries × Bool → Entries × Bool → Entries × Bool
with_theirs none kept both = kept
with_theirs (some t) kept both = both

module _ (marshal : Value → Text) where
  abbrev pub val_equal : Value → Value → Bool
  val_equal a b = text_eq (marshal a) (marshal b)

  -- Base has the entry, with that value: the side that has no entry deleted it.
  abbrev pub is_deleted : Option Value → Value → Bool
  is_deleted none v = false
  is_deleted (some b) v = val_equal b v

  -- Values of which one is no map are taken whole.
  unfoldable pub merge_whole : Value → Value → Value → Value × Bool
  unfolding text_eq
  merge_whole base ours theirs =
      if val_equal ours theirs
      then (ours, false)
      else if val_equal base ours
      then (theirs, false)
      else if val_equal base theirs
      then (ours, false)
      else (
        object (
            entry (codes "__fuse_conflict__") (whole (codes "true"))
              (entry (codes "ours") ours (entry (codes "theirs") theirs no_entries))),
        true,
      )

  -- The keys that only theirs has, of those in the second argument.
  unfoldable pub theirs_only : Entries → Entries → Entries → Entries
  unfolding text_eq
  theirs_only base ours no_entries = no_entries
  theirs_only base ours (entry k t ts) =
      let rest = theirs_only base ours ts in
      elim (entry_of k ours) [
        | some o ↦ rest
        | none ↦ (if is_deleted (entry_of k base) t then rest else entry k t rest)
      ]

  unfoldable mutual
    unfolding merge_whole text_eq

    pub merge_value : Value → Value → Value → Value × Bool
    merge_value (object bs) (object os) (object ts) =
        let (merged, conflict) = merge_entries bs os ts in
        (object (append_entries merged (theirs_only bs os ts)), conflict)
    merge_value nil (object os) (object ts) =
        let (merged, conflict) = merge_entries no_entries os ts in
        (object (append_entries merged (theirs_only no_entries os ts)), conflict)
    merge_value base ours theirs = merge_whole base ours theirs

    -- The keys of ours, of which the second argument holds those that are left.
    pub merge_entries : Entries → Entries → Entries → Entries × Bool
    merge_entries bs no_entries ts = (no_entries, false)
    merge_entries bs (entry k o os) ts =
        let (rest, conflict) = merge_entries bs os ts in
        let kept = if is_deleted (entry_of k bs) o then rest else entry k o rest in
        let (both, clash) = merge_value (or_nil (entry_of k bs)) o (or_nil (entry_of k ts)) in
        with_theirs (entry_of k ts) (kept, conflict) (entry k both rest, clash || conflict)

-- The confidence is in thousandths.
pub record ConfigMergeResult : Type 0 where
  pub merged : Text
  pub has_conflict : Bool
  pub confidence : ℕ

-- The parser and the encoder of a language.
pub record Format : Type 0 where
  pub parse : Text → Option Value
  pub encode : Value → Option Text

-- A line merge in place of a deep one; `factor` is in tenths.
abbrev pub by_lines : ℕ → Text → Text → Text → ConfigMergeResult
by_lines factor base ours theirs =
    let r = line_merge base ours theirs in
    record { merged = r.merged; has_conflict = r.has_conflict; confidence = r.confidence * factor }

abbrev encoded : Option Text → Bool → ConfigMergeResult → ConfigMergeResult
encoded none conflict fallback = fallback
encoded (some out) conflict fallback = record {
  merged = out;
  has_conflict = conflict;
  confidence = if conflict then 0 else 900;
}

-- The deep merge of the three parsed values, or the fallback where one is missing.
unfoldable pub merge_parsed :
    (Value → Text)
    → Format
    → Option Value
    → Option Value
    → Option Value
    → ConfigMergeResult
    → ConfigMergeResult
unfolding merge_value
merge_parsed marshal format (some b) (some o) (some t) fallback =
    let (merged, conflict) = merge_value marshal b o t in
    encoded (format.encode merged) conflict fallback
merge_parsed marshal format b o t fallback = fallback

unfoldable pub config_merge :
    (Value → Text) → (Text → Option Format) → Text → Text → Text → Text → ConfigMergeResult
unfolding merge_parsed line_merge
config_merge marshal formats lang base ours theirs = elim (formats lang) [
  | none ↦ by_lines 10 base ours theirs
  | some format ↦
      merge_parsed marshal format (format.parse base) (format.parse ours) (format.parse theirs)
        (by_lines 8 base ours theirs)
]
