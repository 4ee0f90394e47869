-- ===== src/Service/Preferred/Order.antt =====
-- internal/service/preferred.go: the order of the preferred chain.
use emly_updater.Base.{
  ℕ, suc, ◌≡◌, refl, String, true, false, ◌&&◌, is_some, Option, none, some, List, [], ◌∷◌, str_eq,
  is_blank, contains, or_else, head?, if◌then◌else◌, arith, eq_iff,
}
use emly_updater.Service.Preferred.{
  without, preferred_chain, server_for, noted, note_preferred_server,
}

-- how often a name stands in a chain
abbrev pub count : String → List String → ℕ
count x [] = 0
count x (y ∷ ys) = let rest = count x ys in if str_eq y x then suc rest else rest

count-without :
    (p x : String) (chain : List String)
    → contains chain p ≡ true
    → count x (p ∷ without p chain) ≡ count x chain
unfolding without
count-without p x [] h = cc
count-without p x (y ∷ ys) h =
    ground (arith, eq_iff y p, eq_iff p x, eq_iff y x, count-without p x ys)

-- The preferred chain lists each server as often as the policy's chain does: a preference changes
-- the order in which the servers are tried, and never which.
pub preferred_chain-count :
    (chain : List String) (p : Option String) (x : String)
    → count x (preferred_chain chain p).0 ≡ count x chain
unfolding preferred_chain
preferred_chain-count [] p x = refl
preferred_chain-count (head ∷ chain) none x = refl
preferred_chain-count (head ∷ chain) (some p) x = ground (arith, count-without p x (head ∷ chain))

server_for-contains :
    (url : String → String) (chain : List String) (source : String)
    → is_blank (server_for url chain source) ≡ false
    → contains chain (server_for url chain source) ≡ true
unfolding server_for
server_for-contains url [] source h = ground arith
server_for-contains url (name ∷ names) source h =
    ground (arith, eq_iff name name, server_for-contains url names source)

headed :
    (served head : String) (chain : List String) (p : Option String)
    → is_blank served ≡ false
    → contains (head ∷ chain) served ≡ true
    → (is_some p && is_blank (or_else "" p)) ≡ false
    → head? (preferred_chain (head ∷ chain) (noted served head p).0).0 ≡ some served
unfolding preferred_chain noted
headed served head chain none given listed named =
    ground (arith, eq_iff served head, eq_iff served "", listed)
headed served head chain (some q) given listed named =
    ground (arith, eq_iff served head, eq_iff q head, eq_iff served q, listed)

blank_url :
    (url : String → String) (source : String)
    → is_blank (server_for url [] source) ≡ false
    → false ≡ true
unfolding server_for
blank_url url source h = ground arith

-- After a resolution that a server of the chain served, other than behind a primary that answered
-- 404, the chain of the next one is headed by that server; a preference has a name.
pub note_preferred_server-heads :
    (url : String → String) (chain : List String) (source : String) (p : Option String)
    → is_blank (server_for url chain source) ≡ false
    → (is_some p && is_blank (or_else "" p)) ≡ false
    → head? (preferred_chain chain (note_preferred_server url chain false source p).0).0
      ≡ some (server_for url chain source)
unfolding note_preferred_server
note_preferred_server-heads url [] source p h named =
    absurd (ground (arith, eq_iff "" "", blank_url url source h))
note_preferred_server-heads url (head ∷ chain) source p h named =
    rw (h, note_preferred_server)
      (headed (server_for url (head ∷ chain) source) head chain p h
        (server_for-contains url (head ∷ chain) source h) named)
