-- ===== src/Service/Commands/Admission.antt =====
-- Which commands run (clientcmd.go, admitCommand and executeCommand), and the answer to those that do
-- not.
use emly_updater.Base.{
  ◌≡◌, inl, inr, String, true, false, not, ◌&&◌, ◌||◌, none, is_blank, contains, ltb, arith,
  Bool-cases, Option-cases,
}
use emly_updater.Service.Power as PowerFile
use emly_updater.Service.Power.{admit_destructive, destructive_pending_now}
use emly_updater.WsClient.Protocol.{Args, Command, validate_args, destructive}
use emly_updater.Service.Commands.{
  State, Env, seen, claim_command, admit_command, start, fresh, admitted, allows,
}

module _ (lib : Args) where
  -- What holds of a command that is admitted.
  record IsAdmitted (env : Env) (cmd : Command) (p : PowerFile.State) : Type 0 where
    valid : validate_args lib cmd.name cmd.args ≡ none
    allowed : allows env cmd.name ≡ true
    secure : (not (destructive cmd.name) || env.secure) ≡ true
    idle : (not (destructive cmd.name) || not (ltb 0 p.installing)) ≡ true

  admit_command-IsAdmitted :
      (env : Env) (cmd : Command) (p : PowerFile.State)
      → (admit_command lib env cmd p).1 ≡ none
      → IsAdmitted env cmd p
  unfolding admit_command admit_destructive
  admit_command-IsAdmitted env cmd p h = elim (Option-cases (validate_args lib cmd.name cmd.args)) [
    | inr (e, q) ↦ absurd (ground arith)
    | inl q ↦ record {
      valid = q;
      allowed = ground arith;
      secure = ground arith;
      idle = ground arith;
    }
  ]

  -- A command that a delivery starts has an id, was not known, has arguments that pass the check, is
  -- allowed by the policy of this host and is not running already; a destructive one came over wss,
  -- and no install is running.
  pub start_admitted :
      (env : Env) (id : String) (cmd : Command) (s : State)
      → (start lib env id cmd s).2 ≡ true
      → (is_blank id ≡ false)
        × (seen id s.ring ≡ false)
        × (validate_args lib cmd.name cmd.args ≡ none)
        × (allows env cmd.name ≡ true)
        × (contains s.running cmd.name ≡ false)
        × ((not (destructive cmd.name) || env.secure && not (ltb 0 s.power.installing)) ≡ true)
  unfolding start fresh admitted claim_command
  start_admitted env id cmd s runs = elim (Bool-cases (is_blank id)) [
    | inl e ↦ absurd (ground arith)
    | inr e ↦ elim (Bool-cases (seen id s.ring)) [
      | inl f ↦ absurd (ground arith)
      | inr f ↦ elim (Option-cases (admit_command lib env cmd s.power).1) [
        | inr (code, g) ↦ absurd (ground arith)
        | inl g ↦
            let a = admit_command-IsAdmitted env cmd s.power g in
            (e, f, a.valid, a.allowed, ground arith, ground (arith, a.secure, a.idle))
      ]
    ]
  ]
