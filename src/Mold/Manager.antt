-- ===== src/Mold/Manager.antt =====
-- `SessionManager` of include/moldudp64/session.hpp. A reference to a session is its place in the
-- deque, which no call below moves.
use dpdk_itch5_feedhandler.Prelude.{
  ℕ, zero, suc, ◌+◌, ◌-◌, ◌<◌, ◌≡◌, refl, List, [], ◌∷◌, Bool, false, ◌||◌, Bytes, length, ◌==◌,
  if◌then◌else◌, arith,
}
use dpdk_itch5_feedhandler.Mold.Session.{Session, new_session, is_empty, is_stale}

pub record SessionManager {ℓ} (W : Type ℓ) : Type ℓ where
  pub sessions : List (Session W)

abbrev pub contains : List ℕ → ℕ → Bool
contains [] i = false
contains (j ∷ js) i = j == i || contains js i

module _ {ℓ} {W : Type ℓ} where
  -- The first id that is asked for makes the session that every id is given from then on.
  unfoldable pub get_session : SessionManager W → Bytes → SessionManager W × ℕ
  get_session m session_id =
      let sessions = (if is_empty m.sessions then new_session session_id ∷ [] else m.sessions) in
      (record { sessions = sessions }, length sessions - 1)

  -- The loop over the deque, from place `i` on.
  unfoldable pub stale_from : List (Session W) → ℕ → List ℕ
  stale_from [] i = []
  stale_from (s ∷ sessions) i =
      let rest = stale_from sessions (i + 1) in if is_stale s.state then i ∷ rest else rest

  unfoldable pub get_stale_sessions : SessionManager W → List ℕ
  get_stale_sessions m = stale_from m.sessions 0

  -- A session is there and is stale.
  abbrev pub is_stale_at : List (Session W) → ℕ → Bool
  is_stale_at [] i = false
  is_stale_at (s ∷ sessions) zero = is_stale s.state
  is_stale_at (s ∷ sessions) (suc i) = is_stale_at sessions i

  -- Whatever id is asked for first, any other id is given the same session afterwards, and no call
  -- after the first changes the manager.
  pub get_session_once :
      (m : SessionManager W) (a b : Bytes)
      → (get_session (get_session m a).0 b ≡ get_session m a)
        × ((get_session m a).1 < length (get_session m a).0.sessions)
  unfolding get_session
  get_session_once m a b = go m.sessions a b
    where
      go :
          (ss : List (Session W)) (a b : Bytes)
          → (get_session (get_session (record { sessions = ss }) a).0 b
              ≡ get_session (record { sessions = ss }) a)
            × ((get_session (record { sessions = ss }) a).1
                < length (get_session (record { sessions = ss }) a).0.sessions)
      go [] a b = (refl, omega arith)
      go (s ∷ ss) a b = (refl, omega arith)

  contains-below : (ss : List (Session W)) (i j : ℕ) → j < i → contains (stale_from ss i) j ≡ false
  unfolding stale_from
  contains-below [] i j h = refl
  contains-below (s ∷ ss) i j h = ground (arith, contains-below ss (i + 1) j)

  contains-stale_from :
      (ss : List (Session W)) (i j k : ℕ)
      → k ≡ i + j
      → contains (stale_from ss i) k ≡ is_stale_at ss j
  unfolding stale_from
  contains-stale_from [] i j k e = refl
  contains-stale_from (s ∷ ss) i zero k e = ground (arith, contains-below ss (i + 1) k)
  contains-stale_from (s ∷ ss) i (suc j) k e =
      ground (arith, contains-stale_from ss (i + 1) j k (omega arith))

  -- The list names exactly the places at which a session stands and is stale.
  pub get_stale_sessions_iff :
      (m : SessionManager W) (i : ℕ) → contains (get_stale_sessions m) i ≡ is_stale_at m.sessions i
  unfolding get_stale_sessions
  get_stale_sessions_iff m i = contains-stale_from m.sessions 0 i i (omega arith)
