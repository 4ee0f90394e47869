-- ===== src/Service/Events/Buffer.antt =====
-- The buffer of events (clientevents.go): its bound, its order, and what a flush leaves.
use emly_updater.Base.{
  ◌-◌, ◌≡◌, refl, ap, sym, subst, ◌≤◌, Bool, true, false, List, [], ◌∷◌, ◌++◌, filter, any, length,
  length-drop, arith,
}
use emly_updater.Service.Events.{
  BufferedEvent, SendError, sent, too_large, gone, State, bounded, emit, flush_loop, flush_events,
  event_buffer_size,
}

pub bounded_le : (es : List BufferedEvent) → length (bounded es) ≤ event_buffer_size
bounded_le es = ground (arith, length-drop (length es - event_buffer_size) es)

-- The events that a session could take: with no session, `emit` adds to the buffer.
pub record Emission : Type 0 where
  pub event : BufferedEvent
  pub accepted : Bool
  pub answer : SendError

unfoldable pub emit_all : List Emission → State → State
emit_all [] s = s
emit_all (e ∷ es) s = emit_all es (emit e.event e.accepted e.answer s)

emit-bound :
    (e : Emission) (s : State)
    → length s.buffer ≤ event_buffer_size
    → length (emit e.event e.accepted e.answer s).buffer ≤ event_buffer_size
unfolding emit
emit-bound e s few = ground (arith, bounded_le (s.buffer ++ e.event ∷ []))

-- Any number of events leaves at most 32 in a buffer that held at most 32.
pub emit_all-bound :
    (es : List Emission) (s : State)
    → length s.buffer ≤ event_buffer_size
    → length (emit_all es s).buffer ≤ event_buffer_size
unfolding emit_all
emit_all-bound [] s few = few
emit_all-bound (e ∷ es) s few = emit_all-bound es _ (emit-bound e s few)

-- what the session took
abbrev pub took : (BufferedEvent → SendError) → BufferedEvent → Bool
took send e = elim (send e) [ sent ↦ true | _ ↦ false ]

-- a failure that is no refusal for the size
abbrev pub stops : (BufferedEvent → SendError) → BufferedEvent → Bool
stops send e = elim (send e) [ gone ↦ true | _ ↦ false ]

abbrev pub stops_first : (BufferedEvent → SendError) → List BufferedEvent → Bool
stops_first send [] = true
stops_first send (e ∷ es) = stops send e

-- A buffer of which the events before the first one that stops the flush are gone, those among them that
-- the session took were sent in their order, and the rest is kept as it stands.
pub record IsFlush (send : BufferedEvent → SendError) (buf done kept : List BufferedEvent)
    : Type 0 where
  pub tried : List BufferedEvent
  pub parts : buf ≡ tried ++ kept
  pub passes : any (stops send) tried ≡ false
  pub stopped : stops_first send kept ≡ true
  pub sent_ones : done ≡ filter (took send) tried

-- what the loop makes of an answer, from what it makes of the events behind
abbrev answered :
    BufferedEvent
    → List BufferedEvent
    → List BufferedEvent × List BufferedEvent
    → SendError
    → List BufferedEvent × List BufferedEvent
answered e es (done, kept) sent = (e ∷ done, kept)
answered e es (done, kept) too_large = (done, kept)
answered e es (done, kept) gone = ([], e ∷ es)

answered-IsFlush :
    (send : BufferedEvent → SendError) (e : BufferedEvent) (es done kept : List BufferedEvent)
    (a : SendError)
    → send e ≡ a
    → IsFlush send es done kept
    → IsFlush send (e ∷ es) (answered e es (done, kept) a).0 (answered e es (done, kept) a).1
answered-IsFlush send e es done kept sent h rest = record {
  tried = e ∷ rest.tried;
  parts = ap (λ l. e ∷ l) rest.parts;
  passes = rw (stops, h) rest.passes;
  stopped = rest.stopped;
  sent_ones = rw (took, h) (ap (λ l. e ∷ l) rest.sent_ones);
}
answered-IsFlush send e es done kept too_large h rest = record {
  tried = e ∷ rest.tried;
  parts = ap (λ l. e ∷ l) rest.parts;
  passes = rw (stops, h) rest.passes;
  stopped = rest.stopped;
  sent_ones = rw (took, h) rest.sent_ones;
}
answered-IsFlush send e es done kept gone h rest = record {
  tried = [];
  parts = refl;
  passes = refl;
  stopped = rw (stops, h) refl;
  sent_ones = refl;
}

flush_loop-answered :
    (send : BufferedEvent → SendError) (e : BufferedEvent) (es : List BufferedEvent) (a : SendError)
    → send e ≡ a
    → flush_loop send (e ∷ es) ≡ answered e es (flush_loop send es) a
unfolding flush_loop
flush_loop-answered send e es sent h = rw (flush_loop, h) refl
flush_loop-answered send e es too_large h = rw (flush_loop, h) refl
flush_loop-answered send e es gone h = rw (flush_loop, h) refl

flush_loop-IsFlush :
    (send : BufferedEvent → SendError) (es : List BufferedEvent)
    → IsFlush send es (flush_loop send es).0 (flush_loop send es).1
unfolding flush_loop
flush_loop-IsFlush send [] = record {
  tried = [];
  parts = refl;
  passes = refl;
  stopped = refl;
  sent_ones = refl;
}
flush_loop-IsFlush send (e ∷ es) =
    let (done, kept) = flush_loop send es in
    subst (λ (r : List BufferedEvent × List BufferedEvent). IsFlush send (e ∷ es) r.0 r.1)
      (sym (flush_loop-answered send e es (send e) refl))
      (answered-IsFlush send e es done kept (send e) refl (flush_loop-IsFlush send es))

-- A flush tries the buffer oldest first, up to the first event that fails for another reason than its
-- size: of those before it exactly what the session took is sent, in order, and what it refused for its
-- size is dropped; that event and all behind it are kept in order, before what came meanwhile.
pub flush_events-IsFlush :
    (send : BufferedEvent → SendError) (meanwhile : List BufferedEvent) (s : State)
    → (kept : List BufferedEvent) × ((flush_events send meanwhile s).0.buffer ≡ kept ++ meanwhile)
      × IsFlush send s.buffer (flush_events send meanwhile s).1 kept
unfolding flush_events
flush_events-IsFlush send meanwhile s =
    ((flush_loop send s.buffer).1, refl, flush_loop-IsFlush send s.buffer)
