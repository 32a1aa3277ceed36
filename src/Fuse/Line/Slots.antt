-- ===== src/Fuse/Line/Slots.antt =====
-- tagLines and preInsertions of line.go: the tags and insertions that `applyHunks` reads at each
-- base index say the same as the hunks.
use grove_suite.Prelude.{
  inl, inr, ℕ, zero, suc, ◌+◌, ◌-◌, ◌≤◌, ◌<◌, ◌≡◌, refl, ap, ◌∙◌, false, not, ◌&&◌, List, [], ◌∷◌,
  arith, ◌==◌, ltb, leb, if◌then◌else◌, length, get_or, set, is_empty, length-set, get_or-set_self,
  get_or-set_ne, Text, Bool-cases,
}
use grove_suite.Fuse.Line.{
  Hunk, LineTag, keep, delete, replace, mark, follows, takes_next, tag_hunk, tag_hunks,
}
use grove_suite.Fuse.Line.Patch.{Describes, Alternates}

-- What one hunk says of base line `k`, `tag` being what the hunks before it say.
unfoldable pub tag_by : Hunk → ℕ → LineTag → LineTag
tag_by h k tag =
    if h.unchanged
    then tag
    else if leb h.base_start k && ltb k h.base_end
    then (if k == h.base_start && not (is_empty h.lines) then replace h.lines else delete)
    else tag

unfoldable pub tag_over : List Hunk → ℕ → LineTag → LineTag
unfolding tag_by
tag_over [] k tag = tag
tag_over (h ∷ hs) k tag = tag_over hs k (tag_by h k tag)

length-mark :
    (i n : ℕ) (tag : LineTag) (tags : List LineTag) → length (mark i n tag tags) ≡ length tags
unfolding mark
length-mark i zero tag tags = refl
length-mark i (suc n) tag tags =
    length-mark (suc i) n delete (set tags i tag) ∙ length-set tags i tag

get_or-mark :
    (i n : ℕ) (tag : LineTag) (tags : List LineTag) (k : ℕ)
    → k < length tags
    → get_or (mark i n tag tags) k keep
      ≡ (if leb i k && ltb k (i + n) then (if k == i then tag else delete) else get_or tags k keep)
unfolding mark
get_or-mark i zero tag tags k h = ground arith
get_or-mark i (suc n) tag tags k h = elim (Bool-cases (k == i)) [
  | inl e ↦ ground (
    arith,
    get_or-mark (suc i) n delete (set tags i tag) k,
    length-set tags i tag,
    get_or-set_self tags i tag keep,
  )
  | inr e ↦ ground (
    arith,
    get_or-mark (suc i) n delete (set tags i tag) k,
    length-set tags i tag,
    get_or-set_ne tags i k tag keep,
  )
]

-- The tags after one hunk, where no insertion follows a deletion.
tag_step : Hunk → List LineTag → List LineTag
tag_step h tags =
    let width = h.base_end - h.base_start in
    if h.unchanged
    then tags
    else if ltb h.base_start h.base_end && not (is_empty h.lines)
    then mark h.base_start width (replace h.lines) tags
    else if is_empty h.lines
    then mark h.base_start width delete tags
    else tags

follows-Alternates :
    (h : Hunk) (hs : List Hunk)
    → Alternates (h ∷ hs)
    → h.unchanged ≡ false
    → follows h.base_end hs ≡ false
unfolding follows
follows-Alternates h [] a u = refl
follows-Alternates h (k ∷ hs) a u = ground (arith, a.0)

Alternates-tail : (h : Hunk) (hs : List Hunk) → Alternates (h ∷ hs) → Alternates hs
Alternates-tail h [] a = tt
Alternates-tail h (k ∷ hs) a = a.1

tag_hunk_lem :
    (h : Hunk) (hs : List Hunk) (tags : List LineTag)
    → Alternates (h ∷ hs)
    → tag_hunk h hs tags ≡ tag_step h tags
unfolding tag_hunk tag_step
tag_hunk_lem h hs tags a = elim (Bool-cases h.unchanged) [
  | inl u ↦ rw u
  | inr u ↦ rw (u, follows-Alternates h hs a u)
]

takes_next_lem : (h : Hunk) (hs : List Hunk) → Alternates (h ∷ hs) → takes_next h hs ≡ false
unfolding takes_next
takes_next_lem h hs a = elim (Bool-cases h.unchanged) [
  | inl u ↦ rw u
  | inr u ↦ rw (u, follows-Alternates h hs a u) (ground arith)
]

get_or-tag_step :
    (h : Hunk) (tags : List LineTag) (k : ℕ)
    → k < length tags
    → h.base_start ≤ h.base_end
    → get_or (tag_step h tags) k keep ≡ tag_by h k (get_or tags k keep)
unfolding tag_step tag_by
get_or-tag_step h tags k less order = ground (
  arith,
  get_or-mark h.base_start (h.base_end - h.base_start) (replace h.lines) tags k,
  get_or-mark h.base_start (h.base_end - h.base_start) delete tags k,
)

length-tag_step : (h : Hunk) (tags : List LineTag) → length (tag_step h tags) ≡ length tags
unfolding tag_step
length-tag_step h tags = ground (
  arith,
  length-mark h.base_start (h.base_end - h.base_start) (replace h.lines) tags,
  length-mark h.base_start (h.base_end - h.base_start) delete tags,
)

-- Where kinds alternate, the hunks come back as they were, and the tags are those of `tag_over`.
pub tag_hunks-tag_over :
    (hs : List Hunk) (tags : List LineTag) (i : ℕ) (bs ss : List Text)
    → Alternates hs
    → Describes i bs ss hs
    → ((tag_hunks false hs tags).1 ≡ hs)
      × ((k : ℕ)
          → k < length tags
          → get_or (tag_hunks false hs tags).0 k keep ≡ tag_over hs k (get_or tags k keep))
unfolding tag_hunks tag_over
tag_hunks-tag_over [] tags i bs ss a d = (refl, λ k h. refl)
tag_hunks-tag_over (h ∷ hs) tags i bs ss a d =
    rw (takes_next_lem h hs a, tag_hunk_lem h hs tags a)
      (let ih =
          tag_hunks-tag_over hs (tag_step h tags) h.base_end d.1 d.2 (Alternates-tail h hs a) d.8 in
        (
          ap (λ r. h ∷ r) ih.0,
          λ k less.
              ih.1 k (omega (arith, length-tag_step h tags))
              ∙ ap (tag_over hs k) (get_or-tag_step h tags k less (omega (arith, d.5, d.6))),
        ))
