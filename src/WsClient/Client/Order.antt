-- ===== src/WsClient/Client/Order.antt =====
-- internal/wsclient/client.go: the order of what one connection hands to its handler.
use emly_updater.WsClient.Protocol.{Command}
use emly_updater.Base.{
  ℕ, ◌≡◌, refl, String, Bool, true, false, not, ◌&&◌, Option, none, some, List, [], ◌∷◌, ◌++◌,
  str_eq, if_intro,
}
use emly_updater.WsClient.Session.{Session, Welcome}
use emly_updater.WsClient.Client.{
  Identity, Decoders, Incoming, message, broken, Deed, welcomed, commanded, notified, End, Shaken,
  failed, shaken, heartbeat, handshake, after_handshake, on_welcome, on_command, on_notify,
  on_message, command_of, notify_of, welcomed_by, Notify, usable, run, identified,
}

-- A connection is welcomed once; commands and notifies come after that, with the session of the welcome.
abbrev pub Orderly : Option Session → List Deed → Type 0
Orderly o [] = Unit {0}
Orderly o (welcomed s ∷ ds) = (o ≡ none) × Orderly (some s) ds
Orderly o (commanded s id cmd ∷ ds) = (o ≡ some s) × Orderly o ds
Orderly o (notified s n ∷ ds) = (o ≡ some s) × Orderly o ds
Orderly o (d ∷ ds) = Orderly o ds

module _ (lib : Decoders) where
  command-Orderly :
      (s : Session) (id : String) (cmd : Option Command) (ds : List Deed)
      → Orderly (some s) ds
      → Orderly (some s) (command_of lib s id cmd ++ ds)
  unfolding command_of
  command-Orderly s id none ds k = k
  command-Orderly s id (some cmd) ds k = (refl, k)

  on_command-Orderly :
      (o : Option Session) (id raw : String) (ds : List Deed)
      → Orderly o ds
      → Orderly o (on_command lib o id raw ++ ds)
  unfolding on_command
  on_command-Orderly none id raw ds k = k
  on_command-Orderly (some s) id raw ds k = command-Orderly s id (lib.command raw) ds k

  notify-Orderly :
      (s : Session) (n : Option Notify) (ds : List Deed)
      → Orderly (some s) ds
      → Orderly (some s) (notify_of lib s n ++ ds)
  unfolding notify_of
  notify-Orderly s none ds k = k
  notify-Orderly s (some n) ds k = (refl, k)

  on_notify-Orderly :
      (o : Option Session) (raw : String) (ds : List Deed)
      → Orderly o ds
      → Orderly o (on_notify lib o raw ++ ds)
  unfolding on_notify
  on_notify-Orderly none raw ds k = k
  on_notify-Orderly (some s) raw ds k = notify-Orderly s (lib.notify raw) ds k

  welcome-Orderly :
      (url : String) (w : Option Welcome) (ds : List Deed)
      → Orderly (welcomed_by lib url w).0 ds
      → Orderly none ((welcomed_by lib url w).1 ++ ds)
  unfolding welcomed_by
  welcome-Orderly url none ds k = k
  welcome-Orderly url (some w) ds k = (refl, k)

  on_welcome-Orderly :
      (url : String) (handled : Bool) (o : Option Session) (raw : String) (ds : List Deed)
      → Orderly (on_welcome lib url handled o raw).0 ds
      → Orderly o ((on_welcome lib url handled o raw).1 ++ ds)
  unfolding on_welcome
  on_welcome-Orderly url handled (some s) raw ds k = k
  on_welcome-Orderly url false none raw ds k = k
  on_welcome-Orderly url true none raw ds k =
      welcome-Orderly url (usable lib (lib.welcome raw)) ds k

  on_message-Orderly :
      (url : String) (handled : Bool) (o : Option Session) (typ id raw : String) (ds : List Deed)
      → Orderly (on_message lib url handled o typ id raw).0 ds
      → Orderly o ((on_message lib url handled o typ id raw).1 ++ ds)
  unfolding on_message
  on_message-Orderly url handled o typ id raw ds =
      let P = λ (r : Option Session × List Deed). Orderly r.0 ds → Orderly o (r.1 ++ ds) in
      if_intro P (str_eq typ "ping") (λ _ k. k)
        λ _.
          if_intro P (str_eq typ "welcome") (λ _. on_welcome-Orderly url handled o raw ds)
            λ _.
              if_intro P (str_eq typ "command") (λ _. on_command-Orderly o id raw ds)
                λ _. if_intro P (str_eq typ "notify") (λ _. on_notify-Orderly o raw ds) λ _ k. k

  pub heartbeat-Orderly :
      (url : String) (handled : Bool) (o : Option Session) (incoming : List Incoming)
      → Orderly o (heartbeat lib url handled o incoming).0
  unfolding heartbeat
  heartbeat-Orderly url handled o [] = tt
  heartbeat-Orderly url handled o (broken done ∷ rest) = tt
  heartbeat-Orderly url handled o (message typ id raw writes done ∷ rest) =
      let P = λ (r : List Deed × End). Orderly o r.0 in
      let (o', deeds) = on_message lib url handled o typ id raw in
      if_intro P (str_eq typ "ping" && not writes) (λ _. tt)
        λ _.
          if_intro P (str_eq typ "error") (λ _. tt)
            λ _.
              on_message-Orderly url handled o typ id raw (heartbeat lib url handled o' rest).0
                (heartbeat-Orderly url handled o' rest)

  after_handshake-Orderly :
      (url : String) (handled : Bool) (h : Shaken)
      → Orderly none (after_handshake lib url handled h).0
  unfolding after_handshake
  after_handshake-Orderly url handled (failed e) = tt
  after_handshake-Orderly url handled (shaken rest) = heartbeat-Orderly url handled none rest

  -- Whatever the server sends, the handler is welcomed at most once in a connection, and every command
  -- and notify it is handed comes after that welcome and carries its session.
  pub run-Orderly :
      (url : String) (handled : Bool) (i : Identity) (answer : Option (Option ℕ))
      (incoming : List Incoming)
      → Orderly none (run lib url handled i answer incoming).0
  unfolding run
  run-Orderly url handled i (some answer) incoming =
      if_intro (λ (r : List Deed × End). Orderly none r.0) (not (identified i)) (λ _. tt) (λ _. tt)
  run-Orderly url handled i none incoming =
      if_intro (λ (r : List Deed × End). Orderly none r.0) (not (identified i)) (λ _. tt)
        (λ _. after_handshake-Orderly url handled (handshake lib incoming))
