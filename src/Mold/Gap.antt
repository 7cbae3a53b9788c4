-- ===== src/Mold/Gap.antt =====
-- `Gap` and `Session::check_gap_fill` of include/moldudp64/session.hpp: the ranges of sequence
-- numbers that are missing, and how a range that arrives late takes from them.
pub mod Missing
pub mod Ordered
use dpdk_itch5_feedhandler.Prelude.{
  ℕ, List, [], ◌∷◌, Option, none, some, ◌&&◌, leb, ltb, if◌then◌else◌, add64, sub64,
}

pub record Gap : Type 0 where
  pub start : ℕ
  pub end : ℕ
  pub detected_at_ns : ℕ

-- The inner test of both partial fills: an empty gap is erased.
unfoldable pub nonempty : Gap → Option Gap
nonempty g = if ltb g.end g.start then none else some g

-- One round of the loop: `none` where the gap is erased, else the gap as it stands afterwards.
unfoldable pub fill_gap : ℕ → ℕ → Gap → Option Gap
unfolding nonempty
fill_gap start end g =
    if leb start g.start && leb g.end end
    then none
    else if leb start g.start && leb g.start end
    then nonempty (record g { start = add64 end 1 })
    else if leb start g.end && leb g.end end
    then nonempty (record g { end = sub64 start 1 })
    else some g

-- `it = erase(it)` or `++it`
unfoldable pub keep : Option Gap → List Gap → List Gap
keep none rest = rest
keep (some g) rest = g ∷ rest

-- The loop over `pending_gaps_`.
unfoldable pub check_gap_fill : ℕ → ℕ → List Gap → List Gap
unfolding keep
check_gap_fill start end [] = []
check_gap_fill start end (g ∷ gs) = keep (fill_gap start end g) (check_gap_fill start end gs)
