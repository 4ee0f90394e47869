-- ===== src/Service/Sessions/Bursts.antt =====
-- internal/service/sessionwatch.go: no notification is lost on the way from the queue to a report.
use emly_updater.Base.{
  ◌≡◌, refl, ◌∙◌, sym, ap, String, true, false, not, ◌&&◌, ◌||◌, Option, none, some, List, [], ◌∷◌,
  ◌++◌, map, append_assoc, Bool-cases, inl, inr, is_some, is_empty, ltb, length, if_intro, arith,
  if◌then◌else◌,
}
use mathlib.Core.List.{append-nil}
use emly_updater.Service.Sessions.{
  UserSession, SessionChange, State, initial, Signal, notification, received, settled, Report,
  queue_session_change, receive, report, same, session_change_buffer, watch_sessions, watched,
  session_changed_payload,
}

-- the kinds of the queue, and the burst before them
abbrev pub waiting : State → List String
waiting s = s.kinds ++ map (λ (c : SessionChange). c.kind) s.queue

abbrev pub reported : List Report → List String
reported [] = []
reported (r ∷ rs) = r.payload.events ++ reported rs

-- what a signal brings in: a notification for which the queue has room
abbrev pub brought : Signal → State → List String
brought (notification c) s = if ltb (length s.queue) session_change_buffer then c.kind ∷ [] else []
brought received s = []
brought (settled u l) s = []

abbrev pub brought_in : List Signal → State → List String
brought_in [] s = []
brought_in (x ∷ xs) s = brought x s ++ brought_in xs (watch_sessions x s).0

-- An armed timer has a burst behind it, with its last notification.
abbrev pub Armed : State → Type 0
Armed s = (not s.armed || (is_some s.last && not (is_empty s.kinds))) ≡ true

-- Each report is of a burst that is not empty, and says whether the logged-on user is another one than
-- the report before it had.
abbrev pub Told : UserSession → List Report → Type 0
Told prev [] = Unit {0}
Told prev (r ∷ rs) =
    (is_empty r.payload.events ≡ false)
    × (r.payload.changed ≡ not (same r.logged prev))
    × Told r.logged rs

kinds-append :
    (xs : List SessionChange) (c : SessionChange)
    → map (λ (x : SessionChange). x.kind) (xs ++ (c ∷ []))
      ≡ map (λ (x : SessionChange). x.kind) xs ++ (c.kind ∷ [])
kinds-append [] c = refl
kinds-append (x ∷ xs) c = ap (λ (r : List String). x.kind ∷ r) (kinds-append xs c)

queue-waiting :
    (c : SessionChange) (s : State)
    → waiting (queue_session_change c s) ≡ waiting s ++ brought (notification c) s
unfolding queue_session_change
queue-waiting c s = elim (Bool-cases (ltb (length s.queue) session_change_buffer)) [
  | inl e ↦ rw e (
      ap (λ (r : List String). s.kinds ++ r) (kinds-append s.queue c)
      ∙ sym (append_assoc s.kinds (map (λ (x : SessionChange). x.kind) s.queue) (c.kind ∷ [])))
  | inr e ↦ rw e (sym (append-nil (waiting s)))
]

receive-waiting :
    (cs : List SessionChange) (s : State) → s.queue ≡ cs → waiting (receive cs s) ≡ waiting s
unfolding receive
receive-waiting [] s h = refl
receive-waiting (c ∷ cs) s h =
    append_assoc s.kinds (c.kind ∷ []) (map (λ (x : SessionChange). x.kind) cs)
    ∙ ap (λ (q : List SessionChange). s.kinds ++ map (λ (x : SessionChange). x.kind) q) (sym h)

report-waiting :
    (o : Option SessionChange) (u : String) (l : UserSession) (s : State)
    → reported (report o u l s).1 ++ waiting (report o u l s).0 ≡ waiting s
unfolding report session_changed_payload
report-waiting none u l s = refl
report-waiting (some c) u l s =
    ap (λ (r : List String). r ++ map (λ (x : SessionChange). x.kind) s.queue) (append-nil s.kinds)

watch_sessions-waiting :
    (x : Signal) (s : State)
    → reported (watch_sessions x s).1 ++ waiting (watch_sessions x s).0 ≡ waiting s ++ brought x s
unfolding watch_sessions
watch_sessions-waiting (notification c) s = queue-waiting c s
watch_sessions-waiting received s = receive-waiting s.queue s refl ∙ sym (append-nil (waiting s))
watch_sessions-waiting (settled u l) s =
    if_intro (λ (r : State × List Report). reported r.1 ++ waiting r.0 ≡ waiting s ++ []) s.armed
      (λ _. report-waiting s.last u l s ∙ sym (append-nil (waiting s)))
      (λ _. sym (append-nil (waiting s)))

reported-append : (xs ys : List Report) → reported (xs ++ ys) ≡ reported xs ++ reported ys
reported-append [] ys = refl
reported-append (x ∷ xs) ys =
    ap (λ (r : List String). x.payload.events ++ r) (reported-append xs ys)
    ∙ sym (append_assoc x.payload.events (reported xs) (reported ys))

-- In every order of notifications, receptions and settlings, each notification for which the queue had
-- room is reported once, in the order of arrival, or still waits in the burst or in the queue.
pub watched-conserves :
    (xs : List Signal) (s : State)
    → reported (watched xs s).1 ++ waiting (watched xs s).0 ≡ waiting s ++ brought_in xs s
unfolding watched
watched-conserves [] s = sym (append-nil (waiting s))
watched-conserves (x ∷ xs) s =
    let (s', now) = watch_sessions x s in
    let (s'', later) = watched xs s' in
    ap (λ (r : List String). r ++ waiting s'') (reported-append now later)
    ∙ append_assoc (reported now) (reported later) (waiting s'')
    ∙ ap (λ (r : List String). reported now ++ r) (watched-conserves xs s')
    ∙ sym (append_assoc (reported now) (waiting s') (brought_in xs s'))
    ∙ ap (λ (r : List String). r ++ brought_in xs s') (watch_sessions-waiting x s)
    ∙ append_assoc (waiting s) (brought x s) (brought_in xs s')

nonempty : (xs : List String) (x : String) → is_empty (xs ++ (x ∷ [])) ≡ false
nonempty [] x = refl
nonempty (y ∷ ys) x = refl

-- What a step does to a state whose timer has a burst: reports, in which the state it leaves continues.
abbrev Tells : UserSession → State × List Report → Type 0
Tells prev (s, rs) = Armed s × ((later : List Report) → Told s.prev later → Told prev (rs ++ later))

receive-Tells : (cs : List SessionChange) (s : State) → Armed s → Tells s.prev (receive cs s, [])
unfolding receive
receive-Tells [] s h = (h, λ later t. t)
receive-Tells (c ∷ cs) s h = (ground (arith, nonempty s.kinds c.kind), λ later t. t)

report-Tells :
    (o : Option SessionChange) (u : String) (l : UserSession) (s : State)
    → s.last ≡ o
    → s.armed ≡ true
    → Armed s
    → Tells s.prev (report o u l s)
unfolding report session_changed_payload
report-Tells none u l s last armed h = absurd (ground arith)
report-Tells (some c) u l s last armed h = (refl, λ later t. (ground arith, refl, t))

watch_sessions-Tells : (x : Signal) (s : State) → Armed s → Tells s.prev (watch_sessions x s)
unfolding watch_sessions queue_session_change
watch_sessions-Tells (notification c) s h =
    if_intro (λ (r : State). Tells s.prev (r, [])) (ltb (length s.queue) session_change_buffer)
      (λ _. (h, λ later t. t)) (λ _. (h, λ later t. t))
watch_sessions-Tells received s h = receive-Tells s.queue s h
watch_sessions-Tells (settled u l) s h =
    if_intro (λ (r : State × List Report). Tells s.prev r) s.armed
      (λ armed. report-Tells s.last u l s refl armed h) (λ _. (h, λ later t. t))

Told-after : (xs : List Signal) (s : State) → Armed s → Told s.prev (watched xs s).1
unfolding watched
Told-after [] s h = tt
Told-after (x ∷ xs) s h =
    let (h', tell) = watch_sessions-Tells x s h in
    tell (watched xs (watch_sessions x s).0).1 (Told-after xs (watch_sessions x s).0 h')

-- From the start of the service, no report is empty, and each says truly whether the logged-on user is
-- another one than in the report before it.
pub watched-Told : (xs : List Signal) → Told initial.prev (watched xs initial).1
watched-Told xs = Told-after xs initial refl
