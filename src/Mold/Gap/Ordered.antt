-- ===== src/Mold/Gap/Ordered.antt =====
-- The order of `pending_gaps_` in include/moldudp64/session.hpp: the gaps are nonempty, rise, do
-- not overlap, and stay so under `check_gap_fill`.
use dpdk_itch5_feedhandler.Prelude.{
  ℕ, ◌+◌, ◌≤◌, ◌<◌, List, [], ◌∷◌, ◌++◌, Option, none, some, word64, All, arith,
}
use dpdk_itch5_feedhandler.Mold.Gap.{Gap, fill_gap, keep, check_gap_fill}
use dpdk_itch5_feedhandler.Mold.Gap.Missing.{IsGap}

-- All the gaps lie in `lo .. hi - 1`, one above the other.
abbrev pub Ordered : ℕ → ℕ → List Gap → Type 0
Ordered lo hi [] = lo ≤ hi
Ordered lo hi (g ∷ gs) = (lo ≤ g.start) × (g.start ≤ g.end) × Ordered (g.end + 1) hi gs

pub Ordered-lower :
    (lo lo' hi : ℕ) (gs : List Gap) → lo ≤ lo' → Ordered lo' hi gs → Ordered lo hi gs
Ordered-lower lo lo' hi [] h o = omega arith
Ordered-lower lo lo' hi (g ∷ gs) h o = (omega arith, o.1, o.2)

pub Ordered-raise :
    (lo hi hi' : ℕ) (gs : List Gap) → hi ≤ hi' → Ordered lo hi gs → Ordered lo hi' gs
Ordered-raise lo hi hi' [] h o = omega arith
Ordered-raise lo hi hi' (g ∷ gs) h o = (o.0, o.1, Ordered-raise (g.end + 1) hi hi' gs h o.2)

pub Ordered-le : (lo hi : ℕ) (gs : List Gap) → Ordered lo hi gs → lo ≤ hi
Ordered-le lo hi [] o = o
Ordered-le lo hi (g ∷ gs) o = omega (arith, Ordered-le (g.end + 1) hi gs o.2)

pub Ordered-IsGap : (lo hi : ℕ) (gs : List Gap) → hi < word64 → Ordered lo hi gs → All IsGap gs
Ordered-IsGap lo hi [] h o = tt
Ordered-IsGap lo hi (g ∷ gs) h o =
    ((o.1, omega (arith, Ordered-le (g.end + 1) hi gs o.2)), Ordered-IsGap (g.end + 1) hi gs h o.2)

-- A gap that is recorded above all others keeps the order.
pub Ordered-append :
    (lo hi : ℕ) (gs : List Gap) (g : Gap)
    → Ordered lo hi gs
    → hi ≤ g.start
    → g.start ≤ g.end
    → Ordered lo (g.end + 1) (gs ++ g ∷ [])
Ordered-append lo hi [] g o h k = omega arith
Ordered-append lo hi (x ∷ gs) g o h k = (o.0, o.1, Ordered-append (x.end + 1) hi gs g o.2 h k)

-- What is left of a gap lies within it.
abbrev Within : Gap → Option Gap → Type 0
Within g none = Unit
Within g (some r) = (g.start ≤ r.start) × (r.start ≤ r.end) × (r.end ≤ g.end)

fill_gap-Within :
    (start end : ℕ) (g : Gap)
    → start < word64
    → end < word64
    → IsGap g
    → Within g (fill_gap start end g)
unfolding fill_gap
fill_gap-Within start end g hs he h = ground arith

Ordered-keep :
    (lo hi : ℕ) (g : Gap) (o : Option Gap) (gs : List Gap)
    → lo ≤ g.start
    → g.start ≤ g.end
    → Within g o
    → Ordered (g.end + 1) hi gs
    → Ordered lo hi (keep o gs)
unfolding keep
Ordered-keep lo hi g none gs h k w rest = Ordered-lower lo (g.end + 1) hi gs (omega arith) rest
Ordered-keep lo hi g (some r) gs h k w rest =
    (omega arith, w.1, Ordered-lower (r.end + 1) (g.end + 1) hi gs (omega arith) rest)

-- Filling a range keeps the order.
pub check_gap_fill-Ordered :
    (start end lo hi : ℕ) (gs : List Gap)
    → start < word64
    → end < word64
    → hi < word64
    → Ordered lo hi gs
    → Ordered lo hi (check_gap_fill start end gs)
unfolding check_gap_fill
check_gap_fill-Ordered start end lo hi [] hs he hh o = o
check_gap_fill-Ordered start end lo hi (g ∷ gs) hs he hh o =
    let all = Ordered-IsGap lo hi (g ∷ gs) hh o in
    Ordered-keep lo hi g (fill_gap start end g) (check_gap_fill start end gs) o.0 o.1
      (fill_gap-Within start end g hs he all.0)
      (check_gap_fill-Ordered start end (g.end + 1) hi gs hs he hh o.2)
