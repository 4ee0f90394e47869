-- ===== src/Service/Commands/Dedupe.antt =====
-- internal/service/clientcmd.go: the deliveries of one connection after another, and the results and
-- the actions of the commands in between, as a sequence of turns.
use emly_updater.Base.{
  ℕ, ◌+◌, ◌≡◌, refl, inl, inr, ◌≤◌, String, true, false, List, [], ◌∷◌, length, is_blank, contains,
  arith, Bool-cases, Option-cases,
}
use emly_updater.WsClient.Protocol.{Args, Command, Result, busy}
use emly_updater.Service.Power.{Calls}
use emly_updater.Service.Commands.{
  finish_destructive, Ring, State, Env, add, seen, store, claim_command, release_command,
  admit_command, start, finish, fresh, admitted, replayed, command_ring_size,
}
use emly_updater.Service.Commands.Window.{
  IsRing, IsWithin, Grown, same, entered, Entered, added, turned_down, Entered-IsRing,
  Entered-IsWithin, Grown-IsRing, Grown-IsWithin, store-IsRing, weaker, within_seen,
}

pub data Turn : Type 0 where
  delivered : Env → String → Command → Turn
  finished : String → Command → Result → Turn
  acted : Env → String → Command → Calls → Turn

claim-ring : (name : String) (s : State) → (claim_command name s).0.ring ≡ s.ring
unfolding claim_command
claim-ring name s = ground arith

module _ (lib : Args) where
  unfoldable pub after : Turn → State → State
  after (delivered env id cmd) s = (start lib env id cmd s).0
  after (finished id cmd res) s = (finish id cmd res s).0
  after (acted env id cmd calls) s = finish_destructive lib env id cmd calls s

  unfoldable pub run : List Turn → State → State
  run [] s = s
  run (t ∷ ts) s = run ts (after t s)

  admitted-Entered :
      (env : Env) (id : String) (cmd : Command) (r : Ring) (s : State)
      → seen id r ≡ false
      → s.ring ≡ add id r
      → Entered id r (admitted lib env id cmd s).0.ring
  unfolding admitted claim_command release_command
  admitted-Entered env id cmd r s new e = elim (Bool-cases (contains s.running cmd.name)) [
    | inl f ↦ rw (f, e) (turned_down busy new)
    | inr f ↦ elim (Bool-cases env.ack_ok) [
      | inl g ↦ rw (f, g, e) (added new)
      | inr g ↦ rw (f, g, e) (added new)
    ]
  ]

  fresh-Entered :
      (env : Env) (id : String) (cmd : Command) (s : State)
      → seen id s.ring ≡ false
      → Entered id s.ring (fresh lib env id cmd (record s { ring = add id s.ring })).0.ring
  unfolding fresh
  fresh-Entered env id cmd s new = elim (Option-cases (admit_command lib env cmd s.power).1) [
    | inl g ↦ rw (g, fresh) (admitted-Entered env id cmd s.ring _ new refl)
    | inr (code, g) ↦ rw (g, fresh) (turned_down code new)
  ]

  start-new :
      (env : Env) (id : String) (cmd : Command) (s : State)
      → is_blank id ≡ false
      → seen id s.ring ≡ false
      → start lib env id cmd s ≡ fresh lib env id cmd (record s { ring = add id s.ring })
  unfolding start
  start-new env id cmd s given new = rw (given, new) refl

  start-known :
      (env : Env) (id : String) (cmd : Command) (s : State)
      → is_blank id ≡ false
      → seen id s.ring ≡ true
      → start lib env id cmd s ≡ (s, replayed id s.ring, false)
  unfolding start
  start-known env id cmd s given known = rw (given, known) refl

  start-Grown :
      (env : Env) (id : String) (cmd : Command) (s : State)
      → Grown id s.ring (start lib env id cmd s).0.ring
  unfolding start
  start-Grown env id cmd s = elim (Bool-cases (is_blank id)) [
    | inl e ↦ rw e same
    | inr e ↦ elim (Bool-cases (seen id s.ring)) [
      | inl f ↦ rw (e, f) same
      | inr f ↦ rw (e, f) (entered (fresh-Entered env id cmd s f))
    ]
  ]

  after-IsRing : (t : Turn) (s : State) → IsRing s.ring → IsRing (after t s).ring
  unfolding after finish finish_destructive release_command
  after-IsRing (delivered env id cmd) s w = Grown-IsRing (start-Grown env id cmd s) w
  after-IsRing (finished id cmd res) s w = store-IsRing s.ring id res w
  after-IsRing (acted env id cmd calls) s w = w

  -- Every sequence of deliveries and results keeps the ring well-formed: at most 64 ids, each once,
  -- with a result or a place for it, and refusals for no other id.
  pub run-IsRing : (ts : List Turn) (s : State) → IsRing s.ring → IsRing (run ts s).ring
  unfolding run
  run-IsRing [] s w = w
  run-IsRing (t ∷ ts) s w = run-IsRing ts (after t s) (after-IsRing t s w)

  store-order : (id : String) (res : Result) (r : Ring) → (store id res r).order ≡ r.order
  unfolding store
  store-order id res r = ground arith

  after-IsWithin :
      (n : ℕ) (t : Turn) (s : State) (id : String)
      → IsWithin n id s.ring.order
      → n + 2 ≤ command_ring_size
      → IsWithin (n + 1) id (after t s).ring.order
  unfolding after finish finish_destructive release_command
  after-IsWithin n (delivered env j cmd) s id i room =
      Grown-IsWithin n id (start-Grown env j cmd s) i room
  after-IsWithin n (finished j cmd res) s id i room =
      rw (store-order j res s.ring) (weaker n id s.ring.order i)
  after-IsWithin n (acted env j cmd calls) s id i room = weaker n id s.ring.order i

  run-seen :
      (n : ℕ) (ts : List Turn) (s : State) (id : String)
      → IsRing s.ring
      → IsWithin n id s.ring.order
      → n + length ts + 1 ≤ command_ring_size
      → seen id (run ts s).ring ≡ true
  unfolding run
  run-seen n [] s id w i room = within_seen n s.ring id w i
  run-seen n (t ∷ ts) s id w i room =
      run-seen (n + 1) ts (after t s) id (after-IsRing t s w)
        (after-IsWithin n t s id i (omega arith)) (omega arith)

  -- Where deliveries are looked up and taken into the ring one after another, a new id that is
  -- delivered is not run again by a redelivery in the next 63 turns: the redelivery leaves the state as
  -- it is and is answered from the ring, and nothing runs.
  pub start_redelivered :
      (env env' : Env) (id : String) (cmd cmd' : Command) (s : State) (ts : List Turn)
      → IsRing s.ring
      → is_blank id ≡ false
      → seen id s.ring ≡ false
      → length ts ≤ 63
      → start lib env' id cmd' (run ts (start lib env id cmd s).0) ≡ (
        run ts (start lib env id cmd s).0,
        replayed id (run ts (start lib env id cmd s).0).ring,
        false,
      )
  start_redelivered env env' id cmd cmd' s ts w given new few =
      let in_ring : Entered id s.ring (start lib env id cmd s).0.ring =
        rw (start-new env id cmd s given new) (fresh-Entered env id cmd s new) in
      start-known env' id cmd' _ given (
        run-seen 0 ts (start lib env id cmd s).0 id (Entered-IsRing in_ring w)
          (Entered-IsWithin in_ring) (omega arith))
