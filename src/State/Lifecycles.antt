-- ===== src/State/Lifecycles.antt =====
-- internal/state/state.go, Store: the operations of the poll loop, the welcome burst and the commands,
-- in any order, on the three lifecycles of state.json.
use emly_updater.Base.{
  ◌≡◌, refl, String, Bool, true, false, none, some, List, [], ◌∷◌, filter, arith,
}
use emly_updater.State.{
  Pending, SelfUpdate, PendingCommand, State, Dir, Io, update, with_pending, with_self_update,
  with_command, without_command, without_commands,
}
use emly_updater.State.Atomic.{document, update_atomic}

-- One operation of the store, with the value it writes.
pub data Op : Type 0 where
  set_pending : Pending → Op
  clear_pending : Op
  set_self_update : SelfUpdate → Op
  clear_self_update : Op
  add_command : PendingCommand → Op
  remove_command : String → Op
  take_commands : Op

abbrev pub mutation : Op → State → State
mutation (set_pending p) = with_pending (some p)
mutation clear_pending = with_pending none
mutation (set_self_update u) = with_self_update (some u)
mutation clear_self_update = with_self_update none
mutation (add_command c) = with_command c
mutation (remove_command id) = without_command id
mutation take_commands = without_commands

abbrev pub is_emly : Op → Bool
is_emly (set_pending _) = true
is_emly clear_pending = true
is_emly _ = false

abbrev pub is_updater : Op → Bool
is_updater (set_self_update _) = true
is_updater clear_self_update = true
is_updater _ = false

abbrev pub is_channel : Op → Bool
is_channel (add_command _) = true
is_channel (remove_command _) = true
is_channel take_commands = true
is_channel _ = false

-- The operations that were saved, one after the other on the file.
pub run_ops : List (Op × Io) → Dir → Dir
run_ops [] d = d
run_ops ((op, io) ∷ ops) d = run_ops ops (update (mutation op) io d).0

-- The operations of a sequence that report no error.
pub saved_ops : List (Op × Io) → Dir → List Op
saved_ops [] d = []
saved_ops ((op, io) ∷ ops) d =
    let (d', e, _) = update (mutation op) io d in
    let rest = saved_ops ops d' in elim e [ none ↦ op ∷ rest | some _ ↦ rest ]

pub mutate_all : List Op → State → State
mutate_all [] s = s
mutate_all (op ∷ ops) s = mutate_all ops (mutation op s)

pending-mutate_all :
    (ops : List Op) (s s' : State)
    → s.pending ≡ s'.pending
    → (mutate_all ops s).pending ≡ (mutate_all (filter is_emly ops) s').pending
unfolding mutate_all
pending-mutate_all [] s s' e = e
pending-mutate_all (set_pending p ∷ ops) s s' e =
    pending-mutate_all ops (mutation (set_pending p) s) (mutation (set_pending p) s') (ground arith)
pending-mutate_all (clear_pending ∷ ops) s s' e =
    pending-mutate_all ops (mutation clear_pending s) (mutation clear_pending s') (ground arith)
pending-mutate_all (op ∷ ops) s s' e = pending-mutate_all ops (mutation op s) s' e

self_update-mutate_all :
    (ops : List Op) (s s' : State)
    → s.self_update ≡ s'.self_update
    → (mutate_all ops s).self_update ≡ (mutate_all (filter is_updater ops) s').self_update
unfolding mutate_all
self_update-mutate_all [] s s' e = e
self_update-mutate_all (set_self_update u ∷ ops) s s' e =
    self_update-mutate_all ops (mutation (set_self_update u) s) (mutation (set_self_update u) s')
      (ground arith)
self_update-mutate_all (clear_self_update ∷ ops) s s' e =
    self_update-mutate_all ops (mutation clear_self_update s) (mutation clear_self_update s')
      (ground arith)
self_update-mutate_all (op ∷ ops) s s' e = self_update-mutate_all ops (mutation op s) s' e

pending_commands-mutate_all :
    (ops : List Op) (s s' : State)
    → s.pending_commands ≡ s'.pending_commands
    → (mutate_all ops s).pending_commands ≡ (mutate_all (filter is_channel ops) s').pending_commands
unfolding mutate_all
pending_commands-mutate_all [] s s' e = e
pending_commands-mutate_all (add_command c ∷ ops) s s' e =
    pending_commands-mutate_all ops (mutation (add_command c) s) (mutation (add_command c) s')
      (ground arith)
pending_commands-mutate_all (remove_command id ∷ ops) s s' e =
    pending_commands-mutate_all ops (mutation (remove_command id) s)
      (mutation (remove_command id) s') (ground arith)
pending_commands-mutate_all (take_commands ∷ ops) s s' e =
    pending_commands-mutate_all ops (mutation take_commands s) (mutation take_commands s')
      (ground arith)
pending_commands-mutate_all (op ∷ ops) s s' e = pending_commands-mutate_all ops (mutation op s) s' e

-- A sequence of operations on the file does to its document what those that were saved do.
run_ops-document :
    (ops : List (Op × Io)) (d : Dir)
    → document (run_ops ops d).state_file ≡ mutate_all (saved_ops ops d) (document d.state_file)
unfolding run_ops saved_ops mutate_all
run_ops-document [] d = refl
run_ops-document ((op, io) ∷ ops) d =
    ground
      (arith, update_atomic (mutation op) io d, run_ops-document ops (update (mutation op) io d).0)

-- After any interleaving of operations, whichever of their writes failed, the queued EMLy update
-- is what the saved operations on it alone leave, and so are the self-update record and the
-- pending commands: no lifecycle drops or changes another's entry.
pub lifecycles_independent :
    (ops : List (Op × Io)) (d : Dir)
    → let s = document (run_ops ops d).state_file in
      let start = document d.state_file in
      let saved = saved_ops ops d in
      (s.pending ≡ (mutate_all (filter is_emly saved) start).pending)
      × (s.self_update ≡ (mutate_all (filter is_updater saved) start).self_update)
      × (s.pending_commands ≡ (mutate_all (filter is_channel saved) start).pending_commands)
lifecycles_independent ops d =
    let start = document d.state_file in
    let saved = saved_ops ops d in
    rw (run_ops-document ops d) (
      pending-mutate_all saved start start refl,
      self_update-mutate_all saved start start refl,
      pending_commands-mutate_all saved start start refl,
    )
