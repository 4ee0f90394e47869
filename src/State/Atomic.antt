-- ===== src/State/Atomic.antt =====
-- internal/state/state.go: what one operation of the store leaves, on its success and on each failure.
use emly_updater.Base.{◌≡◌, refl, ◌≢◌, ◌⊎◌, true, none, ok, arith}
use emly_updater.State.{
  State, empty, File, missing, bad, stored, Dir, Io, load, save, update, take_pending_commands,
  without_commands,
}

-- The document that the next writer starts from: a file that does not parse counts as empty.
abbrev pub document : File → State
document missing = empty
document bad = empty
document (stored s) = s

-- A failed save leaves the file as it was, and neither leaves a temp file behind; a save that
-- reports no error has stored the document whole.
pub save_atomic :
    (io : Io) (s : State) (d : Dir)
    → d.temp ≡ none
    → ((save io s d).0.temp ≡ none)
      × ((((save io s d).1 ≡ none) × ((save io s d).0.state_file ≡ stored s))
          ⊎ (((save io s d).1 ≢ none) × ((save io s d).0 ≡ d)))
unfolding save
save_atomic io s d t = ground arith

-- An update that reports no error has stored the mutation of the document that was there, where
-- a missing and a corrupt file count as empty. One that reports an error leaves that document as it
-- was: a transient read error writes nothing, and a corrupt file is at most moved aside.
pub update_atomic :
    (mutate : State → State) (io : Io) (d : Dir)
    → (((update mutate io d).1 ≡ none)
        × ((update mutate io d).0.state_file ≡ stored (mutate (document d.state_file))))
      ⊎ (((update mutate io d).1 ≢ none)
          × (document (update mutate io d).0.state_file ≡ document d.state_file))
unfolding update
update_atomic mutate io d = go d.state_file refl
  where
    go :
        (f : File)
        → d.state_file ≡ f
        → (((update mutate io d).1 ≡ none)
            × ((update mutate io d).0.state_file ≡ stored (mutate (document d.state_file))))
          ⊎ (((update mutate io d).1 ≢ none)
              × (document (update mutate io d).0.state_file ≡ document d.state_file))
    go missing e = ground arith
    go bad e = ground arith
    go (stored s) e = ground arith

-- What a corrupt file held is never lost by an update: either it is still in place, or it is the
-- backup and the handler was told.
pub update_keeps_corrupt :
    (mutate : State → State) (io : Io) (d : Dir)
    → d.state_file ≡ bad
    → ((update mutate io d).0.state_file ≡ bad)
      ⊎ (((update mutate io d).0.backup ≡ bad) × ((update mutate io d).2 ≡ true))
unfolding update
update_keeps_corrupt mutate io d e = ground arith

-- Commands are handed out once: a take that reports no error returns every recorded command and
-- leaves none recorded, with the other two entries kept.
pub take_pending_commands_all :
    (io : Io) (d : Dir)
    → (take_pending_commands io d).2 ≡ none
    → ((take_pending_commands io d).0 ≡ (document d.state_file).pending_commands)
      × ((take_pending_commands io d).1.state_file
          ≡ stored (without_commands (document d.state_file)))
unfolding take_pending_commands update
take_pending_commands_all io d h = go d.state_file refl
  where
    go :
        (f : File)
        → d.state_file ≡ f
        → ((take_pending_commands io d).0 ≡ (document d.state_file).pending_commands)
          × ((take_pending_commands io d).1.state_file
              ≡ stored (without_commands (document d.state_file)))
    go missing e = (ground arith, ground arith)
    go bad e = (ground arith, ground arith)
    go (stored s) e = (ground arith, ground arith)

-- A read that succeeds gives the document of the file.
pub load-document : (io : Io) (d : Dir) (s : State) → load io d ≡ ok s → s ≡ document d.state_file
unfolding load
load-document io d s h = go d.state_file refl
  where
    go : (f : File) → d.state_file ≡ f → s ≡ document d.state_file
    go missing e = ground arith
    go bad e = ground arith
    go (stored t) e = ground arith
