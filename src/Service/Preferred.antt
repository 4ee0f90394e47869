-- ===== src/Service/Preferred.antt =====
-- internal/service/preferred.go: the server that this session prefers, and the chain that it heads. A
-- preference is the name of a server, `none` for a nil pointer; the lock-free swap of the pointer
-- is one step.
pub mod Order
use emly_updater.Base.{
  ℕ, ◌≡◌, String, Bool, true, false, not, ◌||◌, Option, none, some, List, [], ◌∷◌, ◌++◌, str_eq,
  is_blank, is_empty, contains, or_else, head?, if◌then◌else◌,
}

-- the chain without the first entry of the name
unfoldable pub without : String → List String → List String
without name [] = []
without name (x ∷ xs) = let rest = without name xs in if str_eq x name then xs else x ∷ rest

-- preferredChain, with the preference that it leaves
unfoldable pub preferred_chain : List String → Option String → List String × Option String
preferred_chain [] p = ([], p)
preferred_chain (head ∷ chain) none = (head ∷ chain, none)
preferred_chain (head ∷ chain) (some p) =
    if str_eq p head
    then (head ∷ chain, some p)
    else if contains (head ∷ chain) p
    then (p ∷ without p (head ∷ chain), some p)
    else (head ∷ chain, none)

-- serverFor: the first name of the chain whose address is the source's, "" for none
unfoldable pub server_for : (String → String) → List String → String → String
server_for url [] source = ""
server_for url (name ∷ names) source =
    let rest = server_for url names source in if str_eq (url name) source then name else rest

-- what is preferred once a server of the chain has served, and whether the presence channel is woken
unfoldable pub noted : String → String → Option String → Option String × Bool
noted served head p =
    if str_eq served head
    then (if is_blank (or_else "" p) then (p, false) else (none, true))
    else if str_eq served (or_else "" p)
    then (p, false)
    else (some served, true)

-- notePreferredServer: `not_found` is a primary that answered 404.
unfoldable pub note_preferred_server :
    (String → String) → List String → Bool → String → Option String → Option String × Bool
unfolding noted
note_preferred_server url [] not_found source p = (p, false)
note_preferred_server url (head ∷ chain) not_found source p =
    let served = server_for url (head ∷ chain) source in
    if not_found || is_blank served then (p, false) else noted served head p
