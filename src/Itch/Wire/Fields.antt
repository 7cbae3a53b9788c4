-- ===== src/Itch/Wire/Fields.antt =====
-- A packed struct of include/itch5/messages.hpp, read from the bytes that its fields make up.
use dpdk_itch5_feedhandler.Prelude.{
  ℕ, ◌^◌, ◌<◌, ◌≡◌, refl, sym, ap, ◌∙◌, List, [], ◌∷◌, ◌++◌, append-nil, Option, some, Bytes,
  length, length-append, take, take-append, get_or, load, load-append, ◌>>=◌, arith,
}
use dpdk_itch5_feedhandler.Common.Endian.{from_le, from_be, ntoh32, ntoh64, read_be48}
use dpdk_itch5_feedhandler.Common.Endian.Laws.{
  be, length-be, be-AreBytes, swap_bytes-be, from_be-be,
}
use dpdk_itch5_feedhandler.Common.Endian.Reads.{read_be48-eq}
use dpdk_itch5_feedhandler.Itch.Layout.{
  Layout, sizeof, field, text, char, word, join, Fit, field-join,
}

pub length-join : (l : Layout) (bs : List Bytes) → Fit l bs → length (join bs) ≡ sizeof l
length-join [] [] h = refl
length-join [] (b ∷ bs) h = absurd h
length-join (n ∷ l) [] h = absurd h
length-join (n ∷ l) (b ∷ bs) h = omega (arith, length-append b (join bs), length-join l bs h.1, h.0)

module _ (l : Layout) (bs : List Bytes) (fit : Fit l bs) (i : ℕ) where
  field_wire : field l i (join bs) ≡ get_or bs i []
  field_wire = ap (field l i) (sym (append-nil (join bs))) ∙ field-join l bs i [] fit

  pub text_wire : text l i (join bs) ≡ get_or bs i []
  unfolding text
  text_wire = field_wire

  pub char_wire : (c : ℕ) → get_or bs i [] ≡ c ∷ [] → char l i (join bs) ≡ c
  unfolding char
  char_wire c e = ap (λ b. get_or b 0 0) (field_wire ∙ e)

  pub ntoh32_wire : (v : ℕ) → v < 2 ^ 32 → get_or bs i [] ≡ be 4 v → ntoh32 (word l i (join bs)) ≡ v
  unfolding ntoh32 word
  ntoh32_wire v h e = ap (λ b. ntoh32 (from_le b)) (field_wire ∙ e) ∙ swap_bytes-be 4 v h

  pub ntoh64_wire : (v : ℕ) → v < 2 ^ 64 → get_or bs i [] ≡ be 8 v → ntoh64 (word l i (join bs)) ≡ v
  unfolding ntoh64 word
  ntoh64_wire v h e = ap (λ b. ntoh64 (from_le b)) (field_wire ∙ e) ∙ swap_bytes-be 8 v h

-- The struct is loaded, and the timestamp in its fourth field is read.
pub load_wire {ℓ} :
    {V : Type ℓ} (l : Layout) (bs : List Bytes) (rest : Bytes) (ts : ℕ) (act : Bytes → ℕ → Option V)
    → Fit l bs
    → get_or bs 3 [] ≡ be 6 ts
    → ts < 2 ^ 48
    → (load (sizeof l) (join bs ++ rest) >>= λ raw. read_be48 (text l 3 raw) >>= act raw)
      ≡ act (join bs) ts
load_wire l bs rest ts act fit e h =
    rw (load-append (sizeof l) (join bs) rest (length-join l bs fit), text_wire l bs fit 3, e, read)
  where
    whole : take 6 (be 6 ts) ≡ be 6 ts
    whole =
        ap (take 6) (sym (append-nil (be 6 ts)))
        ∙ ap (λ n. take n (be 6 ts ++ [])) (sym (length-be 6 ts))
        ∙ take-append (be 6 ts) []

    read : read_be48 (be 6 ts) ≡ some ts
    read =
        read_be48-eq (be 6 ts) (be-AreBytes 6 ts) (omega (arith, length-be 6 ts))
        ∙ ap some (ap from_be whole ∙ from_be-be 6 ts h)
