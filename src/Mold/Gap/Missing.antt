-- ===== src/Mold/Gap/Missing.antt =====
-- `Session::check_gap_fill` of include/moldudp64/session.hpp, read as a set of sequence numbers.
use dpdk_itch5_feedhandler.Prelude.{
  ℕ, ◌≤◌, ◌<◌, ◌≡◌, refl, ap₂, ◌∙◌, ◌⊎◌, List, ◌++◌, Option, none, some, [], ◌∷◌, Bool, true, false,
  not, ◌&&◌, ◌||◌, leb, word64, All, arith,
}
use dpdk_itch5_feedhandler.Mold.Gap.{Gap, fill_gap, keep, check_gap_fill}

-- `x` lies in `start .. end`, both included.
abbrev pub in_range : ℕ → ℕ → ℕ → Bool
in_range start end x = leb start x && leb x end

-- Some pending gap holds the sequence number `x`.
unfoldable pub missing : ℕ → List Gap → Bool
missing x [] = false
missing x (g ∷ gs) = in_range g.start g.end x || missing x gs

-- A gap is not empty, and its numbers fit 64 bits.
abbrev pub IsGap : Gap → Type 0
IsGap g = (g.start ≤ g.end) × (g.end < word64)

-- The range does not lie strictly inside the gap, leaving a part on either side.
abbrev pub Touches : ℕ → ℕ → Gap → Type 0
Touches start end g = (start ≤ g.start) ⊎ (g.end ≤ end)

abbrev HasGap : Option Gap → Type 0
HasGap none = Unit
HasGap (some g) = IsGap g

abbrev holds : ℕ → Option Gap → Bool
holds x none = false
holds x (some g) = in_range g.start g.end x

missing-keep :
    (x : ℕ) (o : Option Gap) (gs : List Gap) → missing x (keep o gs) ≡ (holds x o || missing x gs)
unfolding missing keep
missing-keep x none gs = refl
missing-keep x (some g) gs = refl

module _ (start end : ℕ) (hs : start < word64) (he : end < word64) where
  fill_gap-IsGap : (g : Gap) → IsGap g → HasGap (fill_gap start end g)
  unfolding fill_gap
  fill_gap-IsGap g h = ground arith

  holds-fill_gap_outside :
      (x : ℕ) (g : Gap)
      → IsGap g
      → in_range start end x ≡ false
      → holds x (fill_gap start end g) ≡ in_range g.start g.end x
  unfolding fill_gap
  holds-fill_gap_outside x g h out = ground arith

  holds-fill_gap_inside :
      (x : ℕ) (g : Gap)
      → IsGap g
      → Touches start end g
      → in_range start end x ≡ true
      → holds x (fill_gap start end g) ≡ false
  unfolding fill_gap
  holds-fill_gap_inside x g h t ins = ground arith

  keep-IsGap : (o : Option Gap) (gs : List Gap) → HasGap o → All IsGap gs → All IsGap (keep o gs)
  unfolding keep
  keep-IsGap none gs h k = k
  keep-IsGap (some g) gs h k = (h, k)

  -- Filling keeps every gap nonempty and within 64 bits.
  pub check_gap_fill-IsGap :
      (gs : List Gap) → All IsGap gs → All IsGap (check_gap_fill start end gs)
  unfolding check_gap_fill
  check_gap_fill-IsGap [] h = tt
  check_gap_fill-IsGap (g ∷ gs) h =
      keep-IsGap (fill_gap start end g) _ (fill_gap-IsGap g h.0) (check_gap_fill-IsGap gs h.1)

  -- Filling never touches a number outside of the range.
  pub missing-check_gap_fill_outside :
      (x : ℕ) (gs : List Gap)
      → All IsGap gs
      → in_range start end x ≡ false
      → missing x (check_gap_fill start end gs) ≡ missing x gs
  unfolding check_gap_fill missing
  missing-check_gap_fill_outside x [] h out = refl
  missing-check_gap_fill_outside x (g ∷ gs) h out =
      missing-keep x (fill_gap start end g) (check_gap_fill start end gs)
      ∙ ap₂ ◌||◌ (holds-fill_gap_outside x g h.0 out) (missing-check_gap_fill_outside x gs h.1 out)

  -- A number of the range is no longer missing, if no gap surrounds the range.
  pub missing-check_gap_fill_inside :
      (x : ℕ) (gs : List Gap)
      → All IsGap gs
      → All (Touches start end) gs
      → in_range start end x ≡ true
      → missing x (check_gap_fill start end gs) ≡ false
  unfolding check_gap_fill missing
  missing-check_gap_fill_inside x [] h t ins = refl
  missing-check_gap_fill_inside x (g ∷ gs) h t ins =
      missing-keep x (fill_gap start end g) (check_gap_fill start end gs)
      ∙ ap₂ ◌||◌ (holds-fill_gap_inside x g h.0 t.0 ins)
          (missing-check_gap_fill_inside x gs h.1 t.1 ins)

  by_range : (b m c : Bool) → (b ≡ false → c ≡ m) → (b ≡ true → c ≡ false) → c ≡ (m && not b)
  by_range b m c out ins = ground arith

  -- A late range takes exactly its own numbers from what is missing, if it fits 64 bits and no
  -- pending gap (each nonempty and within 64 bits) surrounds it on both sides.
  pub missing-check_gap_fill :
      (x : ℕ) (gs : List Gap)
      → All IsGap gs
      → All (Touches start end) gs
      → missing x (check_gap_fill start end gs) ≡ (missing x gs && not (in_range start end x))
  missing-check_gap_fill x gs h t =
      by_range (in_range start end x) (missing x gs) (missing x (check_gap_fill start end gs))
        (missing-check_gap_fill_outside x gs h) (missing-check_gap_fill_inside x gs h t)

-- The range lies strictly inside the gap.
abbrev pub Inside : ℕ → ℕ → Gap → Type 0
Inside start end g = (g.start < start) × (start ≤ end) × (end < g.end)

Inside-fill_gap : (start end : ℕ) (g : Gap) → Inside start end g → fill_gap start end g ≡ some g
unfolding fill_gap
Inside-fill_gap start end g h = ground arith

or-true : (b : Bool) → (b || true) ≡ true
or-true true = refl
or-true false = refl

-- A range that arrives strictly inside a pending gap fills nothing of it: each number of the gap
-- is still reported as missing, also those that did arrive.
pub check_gap_fill-Inside :
    (start end x : ℕ) (xs : List Gap) (g : Gap) (ys : List Gap)
    → Inside start end g
    → in_range g.start g.end x ≡ true
    → missing x (check_gap_fill start end (xs ++ g ∷ ys)) ≡ true
unfolding check_gap_fill missing
check_gap_fill-Inside start end x [] g ys h e =
    rw (Inside-fill_gap start end g h)
      (missing-keep x (some g) (check_gap_fill start end ys) ∙ rw e)
check_gap_fill-Inside start end x (y ∷ xs) g ys h e =
    missing-keep x (fill_gap start end y) (check_gap_fill start end (xs ++ g ∷ ys))
    ∙ rw (check_gap_fill-Inside start end x xs g ys h e) (or-true _)
