-- ===== src/Itch/Size/Table.antt =====
-- What `get_message_size` of include/itch5/messages.hpp returns, against the table of the README.
use dpdk_itch5_feedhandler.Prelude.{ℕ, ◌≡◌, refl, List, [], ◌∷◌, ◌==◌, if◌then◌else◌}
use dpdk_itch5_feedhandler.Itch.Size.{get_message_size}

-- The table "ITCH 5.0 Message Types Supported" of README.md.
abbrev pub documented : List (ℕ × ℕ)
documented =
    (b'S', 12)
    ∷ (b'R', 39)
    ∷ (b'H', 25)
    ∷ (b'Y', 20)
    ∷ (b'L', 26)
    ∷ (b'V', 35)
    ∷ (b'W', 12)
    ∷ (b'K', 28)
    ∷ (b'J', 35)
    ∷ (b'h', 21)
    ∷ (b'A', 36)
    ∷ (b'F', 40)
    ∷ (b'E', 31)
    ∷ (b'C', 36)
    ∷ (b'X', 23)
    ∷ (b'D', 19)
    ∷ (b'U', 35)
    ∷ (b'P', 44)
    ∷ (b'Q', 40)
    ∷ (b'B', 19)
    ∷ (b'I', 50)
    ∷ (b'N', 20)
    ∷ []

-- The size that a table gives a type, 0 where it has none.
abbrev pub size_in : List (ℕ × ℕ) → ℕ → ℕ
size_in [] t = 0
size_in ((u, n) ∷ rows) t = if t == u then n else size_in rows t

-- For every type byte the size is that of the documented table, and 0 for a type not in it.
pub get_message_size-documented : (t : ℕ) → get_message_size t ≡ size_in documented t
unfolding get_message_size
get_message_size-documented t = refl
