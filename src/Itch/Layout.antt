-- ===== src/Itch/Layout.antt =====
-- Packed structs as include/itch5/messages.hpp lays them out: the widths of the fields in order,
-- one right behind the other, and a view of the bytes through them.
use dpdk_itch5_feedhandler.Prelude.{
  ℕ, zero, suc, ◌+◌, ◌≤◌, ◌≡◌, refl, List, [], ◌∷◌, ◌++◌, Bytes, length, take, drop, get_or,
  take-append, drop-append, length-take, length-drop, append_assoc, arith,
}
use dpdk_itch5_feedhandler.Common.Endian.{from_le}

abbrev pub Layout : Type 0
Layout = List ℕ

-- `sizeof` of a packed struct.
abbrev pub sizeof : Layout → ℕ
sizeof [] = 0
sizeof (n ∷ l) = n + sizeof l

-- The bytes of the `i`-th field of the struct at `p`.
unfoldable pub field : Layout → ℕ → Bytes → Bytes
field [] i p = []
field (n ∷ l) zero p = take n p
field (n ∷ l) (suc i) p = field l i (drop n p)

-- A field of type `char`, `char[n]` or `uint8_t[n]`, and an integer in the host's byte order.
unfoldable pub text : Layout → ℕ → Bytes → Bytes
unfolding field
text l i p = field l i p

unfoldable pub char : Layout → ℕ → Bytes → ℕ
unfolding field
char l i p = get_or (field l i p) 0 0

unfoldable pub word : Layout → ℕ → Bytes → ℕ
unfolding field from_le
word l i p = from_le (field l i p)

-- The bytes of the fields as a document lists them, joined.
abbrev pub join : List Bytes → Bytes
join [] = []
join (b ∷ bs) = b ++ join bs

-- Some bytes have the layout's widths.
abbrev pub Fit : Layout → List Bytes → Type 0
Fit [] [] = Unit
Fit [] (b ∷ bs) = ⊥
Fit (n ∷ l) [] = ⊥
Fit (n ∷ l) (b ∷ bs) = (length b ≡ n) × Fit l bs

-- A view of joined fields gives each field back.
pub field-join :
    (l : Layout) (bs : List Bytes) (i : ℕ) (rest : Bytes)
    → Fit l bs
    → field l i (join bs ++ rest) ≡ get_or bs i []
unfolding field
field-join [] [] i rest h = refl
field-join [] (b ∷ bs) i rest h = absurd h
field-join (n ∷ l) [] i rest h = absurd h
field-join (n ∷ l) (b ∷ bs) zero rest h =
    rw (append_assoc b (join bs) rest, ← h.0) (take-append b (join bs ++ rest))
field-join (n ∷ l) (b ∷ bs) (suc i) rest h =
    rw (append_assoc b (join bs) rest, ← h.0)
      (rw (drop-append b (join bs ++ rest)) (field-join l bs i rest h.1))

-- A field inside of the struct has its full width.
pub length-field :
    (l : Layout) (i : ℕ) (p : Bytes) → sizeof l ≤ length p → length (field l i p) ≡ get_or l i 0
unfolding field
length-field [] i p h = refl
length-field (n ∷ l) zero p h = omega (arith, length-take n p)
length-field (n ∷ l) (suc i) p h = length-field l i (drop n p) (omega (arith, length-drop n p))
