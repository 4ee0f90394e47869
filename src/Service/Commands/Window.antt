-- ===== src/Service/Commands/Window.antt =====
-- internal/service/clientcmd.go, commandRing: its well-formedness, and how long an id stays in it.
use emly_updater.Base.{
  append_assoc, distinct, contains-append, distinct-append, ℕ, suc, ◌+◌, ◌≡◌, refl, ap, sym, ◌∙◌,
  inl, inr, ◌≤◌, String, true, false, Option, none, some, List, [], ◌∷◌, ◌++◌, Dict, lookup, insert,
  lookup-insert, lookup-delete, length, length-append, contains, ltb, arith, eq_iff, is_some,
  Bool-cases,
}
use emly_updater.WsClient.Protocol.{Result, ErrorCode}
use emly_updater.Service.Commands.{Ring, add, trimmed, seen, store, refuse, command_ring_size}

-- The ids of the order are those of the results, each once, and at most `command_ring_size`; an id
-- that was refused is among them.
pub record IsRing (r : Ring) : Type 0 where
  pub bound : length r.order ≤ command_ring_size
  pub single : distinct r.order ≡ true
  pub keys : (id : String) → seen id r ≡ contains r.order id
  pub refused : (id : String) → is_some (lookup id r.refusals) ≡ true → contains r.order id ≡ true

trimmed-IsRing :
    (order : List String) (results : Dict (Option Result)) (refusals : Dict ErrorCode)
    → length order ≤ suc command_ring_size
    → distinct order ≡ true
    → ((id : String) → is_some (lookup id results) ≡ contains order id)
    → ((id : String) → is_some (lookup id refusals) ≡ true → contains order id ≡ true)
    → IsRing (trimmed order results refusals)
unfolding trimmed
trimmed-IsRing [] results refusals b d k f = record {
  bound = b';
  single = d;
  keys = k;
  refused = f;
}
  where
    b' : 0 ≤ command_ring_size
    b' = omega arith
trimmed-IsRing (x ∷ xs) results refusals b d k f =
    elim (Bool-cases (ltb command_ring_size (length (x ∷ xs)))) [
      | inl e ↦ rw e (record {
        bound = omega (arith, b);
        single = ground arith;
        keys = λ id. ground (arith, lookup-delete x id results, k id, eq_iff x id);
        refused = λ id given. ground (arith, lookup-delete x id refusals, f id);
      })
      | inr e ↦ rw e (record { bound = ground (arith, e); single = d; keys = k; refused = f })
    ]

-- An id that is not in it yet keeps the ring well-formed.
pub add-IsRing : (r : Ring) (id : String) → IsRing r → seen id r ≡ false → IsRing (add id r)
unfolding add
add-IsRing r id w new =
    trimmed-IsRing (r.order ++ id ∷ []) (insert id none r.results) r.refusals
      (omega (arith, length-append r.order (id ∷ []), w.bound))
      (distinct-append r.order id w.single (sym (w.keys id) ∙ new))
      (λ x.
        ground (arith, lookup-insert id x none r.results, contains-append r.order id x, w.keys x))
      (λ x given. ground (arith, contains-append r.order id x, w.refused x given))

pub store-IsRing : (r : Ring) (id : String) (res : Result) → IsRing r → IsRing (store id res r)
unfolding store
store-IsRing r id res w = elim (Bool-cases (seen id r)) [
  | inr e ↦ rw e w
  | inl e ↦ rw e (record {
    bound = w.bound;
    single = w.single;
    keys = λ x.
        ground (arith, lookup-insert id x (some res) r.results, w.keys x, w.keys id, eq_iff id x);
    refused = w.refused;
  })
]

refuse-IsRing :
    (r : Ring) (id : String) (e : ErrorCode) → IsRing r → seen id r ≡ true → IsRing (refuse id e r)
unfolding refuse
refuse-IsRing r id e w held = record {
  bound = w.bound;
  single = w.single;
  keys = w.keys;
  refused = λ x given.
      ground (arith, lookup-insert id x e r.refusals, w.refused x, w.keys id, eq_iff id x);
}

-- the id stands in the order with at most `n` ids behind it
unfoldable pub IsWithin : ℕ → String → List String → Type 0
IsWithin n id order =
    (xs : List String) × (ys : List String) × (order ≡ xs ++ id ∷ ys) × (length ys ≤ n)

-- What the delivery of an id that is not known yet does to the ring.
pub data Entered (id : String) (r : Ring) : Ring → Type 0 where
  added : seen id r ≡ false → Entered id r (add id r)
  turned_down : (e : ErrorCode) → seen id r ≡ false → Entered id r (refuse id e (add id r))

-- What one delivery does to the ring.
pub data Grown (id : String) : Ring → Ring → Type 0 where
  same : {r : Ring} → Grown id r r
  entered : {r r' : Ring} → Entered id r r' → Grown id r r'

-- The last id added is in the ring.
trimmed_last :
    (xs : List String) (id : String) (results : Dict (Option Result)) (refusals : Dict ErrorCode)
    → IsWithin 0 id (trimmed (xs ++ id ∷ []) results refusals).order
unfolding trimmed IsWithin
trimmed_last [] id results refusals = ([], [], refl, omega arith)
trimmed_last (x ∷ xs) id results refusals =
    elim (Bool-cases (ltb command_ring_size (length (x ∷ xs ++ id ∷ [])))) [
      | inl e ↦ rw e (xs, [], refl, omega arith)
      | inr e ↦ rw e (x ∷ xs, [], refl, omega arith)
    ]

trimmed_keeps :
    (n : ℕ) (xs ys : List String) (id : String) (results : Dict (Option Result))
    (refusals : Dict ErrorCode)
    → length ys ≤ n
    → n + 1 ≤ command_ring_size
    → IsWithin n id (trimmed (xs ++ id ∷ ys) results refusals).order
unfolding trimmed IsWithin
trimmed_keeps n [] ys id results refusals few room =
    elim (Bool-cases (ltb command_ring_size (length (id ∷ ys)))) [
      | inl e ↦ absurd (ground (arith, e, few, room))
      | inr e ↦ rw e ([], ys, refl, few)
    ]
trimmed_keeps n (x ∷ xs) ys id results refusals few room =
    elim (Bool-cases (ltb command_ring_size (length (x ∷ xs ++ id ∷ ys)))) [
      | inl e ↦ rw e (xs, ys, refl, few)
      | inr e ↦ rw e (x ∷ xs, ys, refl, few)
    ]

add-IsWithin :
    (n : ℕ) (r : Ring) (id j : String)
    → IsWithin n id r.order
    → n + 2 ≤ command_ring_size
    → IsWithin (n + 1) id (add j r).order
unfolding add IsWithin
add-IsWithin n r id j (xs, ys, e, few) room =
    rw (e, append_assoc xs (id ∷ ys) (j ∷ []))
      (trimmed_keeps (n + 1) xs (ys ++ j ∷ []) id _ r.refusals
        (omega (arith, length-append ys (j ∷ []))) (omega arith))

pub weaker :
    (n : ℕ) (id : String) (order : List String) → IsWithin n id order → IsWithin (n + 1) id order
unfolding IsWithin
weaker n id order (xs, ys, e, few) = (xs, ys, e, omega arith)

contains-middle :
    (xs : List String) (id : String) (ys : List String) → contains (xs ++ id ∷ ys) id ≡ true
contains-middle [] id ys = ground (arith, eq_iff id id)
contains-middle (x ∷ xs) id ys = ground (arith, contains-middle xs id ys)

-- An id that stands in the order of a well-formed ring is known.
pub within_seen :
    (n : ℕ) (r : Ring) (id : String) → IsRing r → IsWithin n id r.order → seen id r ≡ true
unfolding IsWithin
within_seen n r id w (xs, ys, e, few) =
    w.keys id ∙ ap (λ o. contains o id) e ∙ contains-middle xs id ys

pub last-IsWithin : (r : Ring) (id : String) → IsWithin 0 id (add id r).order
unfolding add
last-IsWithin r id = trimmed_last r.order id _ r.refusals

add_seen : (r : Ring) (id : String) → IsRing (add id r) → seen id (add id r) ≡ true
add_seen r id w = within_seen 0 (add id r) id w (last-IsWithin r id)

pub Entered-IsRing : {id : String} {r r' : Ring} → Entered id r r' → IsRing r → IsRing r'
Entered-IsRing {id} {r} (added new) w = add-IsRing r id w new
Entered-IsRing {id} {r} (turned_down e new) w =
    refuse-IsRing (add id r) id e (add-IsRing r id w new) (add_seen r id (add-IsRing r id w new))

pub Entered-IsWithin : {id : String} {r r' : Ring} → Entered id r r' → IsWithin 0 id r'.order
unfolding refuse
Entered-IsWithin {id} {r} (added new) = last-IsWithin r id
Entered-IsWithin {id} {r} (turned_down e new) = last-IsWithin r id

pub Grown-IsRing : {id : String} {r r' : Ring} → Grown id r r' → IsRing r → IsRing r'
Grown-IsRing same w = w
Grown-IsRing (entered n) w = Entered-IsRing n w

pub Grown-IsWithin :
    (n : ℕ) (id : String) {j : String} {r r' : Ring}
    → Grown j r r'
    → IsWithin n id r.order
    → n + 2 ≤ command_ring_size
    → IsWithin (n + 1) id r'.order
unfolding refuse
Grown-IsWithin n id (same {r}) i room = weaker n id r.order i
Grown-IsWithin n id {j} (entered {r} (added new)) i room = add-IsWithin n r id j i room
Grown-IsWithin n id {j} (entered {r} (turned_down e new)) i room = add-IsWithin n r id j i room
