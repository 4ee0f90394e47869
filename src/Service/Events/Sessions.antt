-- ===== src/Service/Events/Sessions.antt =====
-- internal/service/clientevents.go: the session that is published, and the generations of the
-- connections.
use emly_updater.Base.{
  ℕ, ◌≡◌, refl, ◌≤◌, ◌<◌, Bool, true, none, List, [], ◌∷◌, leb, all, and-true, arith,
}
use emly_updater.Service.Events.{State, next_ws_generation, store_ws_session, clear_ws_session}

-- What the goroutines of the channel do, in the order in which they take the lock.
pub data Act : Type 0 where
  attempt : Act
  welcomed cleared : ℕ → ℕ → Act

unfoldable pub act : Act → State → State
act attempt s = (next_ws_generation s).0
act (welcomed gen session) s = store_ws_session gen session s
act (cleared gen session) s = clear_ws_session gen s

unfoldable pub act_all : List Act → State → State
act_all [] s = s
act_all (a ∷ rest) s = act_all rest (act a s)

-- no welcome of a later connection
abbrev pub is_old : ℕ → Act → Bool
is_old gen attempt = true
is_old gen (welcomed g _) = leb g gen
is_old gen (cleared _ _) = true

IsRetired : ℕ → State → Type 0
IsRetired gen s = (gen < s.generation) × (s.session ≡ none)

act-IsRetired :
    (gen : ℕ) (a : Act) (s : State)
    → is_old gen a ≡ true
    → IsRetired gen s
    → IsRetired gen (act a s)
unfolding act IsRetired next_ws_generation store_ws_session clear_ws_session
act-IsRetired gen attempt s old (past, empty) = (omega (arith, past), empty)
act-IsRetired gen (welcomed g session) s old (past, empty) =
    (ground (arith, past), ground (arith, past, empty))
act-IsRetired gen (cleared g session) s old (past, empty) = (ground (arith, past), refl)

act_all-IsRetired :
    (gen : ℕ) (rest : List Act) (s : State)
    → all (is_old gen) rest ≡ true
    → IsRetired gen s
    → IsRetired gen (act_all rest s)
unfolding act_all
act_all-IsRetired gen [] s old r = r
act_all-IsRetired gen (a ∷ rest) s old r =
    let (this, others) = and-true (is_old gen a) (all (is_old gen) rest) old in
    act_all-IsRetired gen rest (act a s) others (act-IsRetired gen a s this r)

-- Once a connection was cleared, no session is published until a later connection is welcomed: a
-- welcome of its own that is still under way, or of an earlier one, changes nothing, in whatever
-- order the goroutines run.
pub clear_ws_session-final :
    (gen : ℕ) (rest : List Act) (s : State)
    → gen ≤ s.generation
    → all (is_old gen) rest ≡ true
    → (act_all rest (clear_ws_session gen s)).session ≡ none
unfolding IsRetired clear_ws_session
clear_ws_session-final gen rest s given old =
    (act_all-IsRetired gen rest (clear_ws_session gen s) old (ground arith, refl)).1
