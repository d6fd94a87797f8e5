-- ===== src/Server/Calls/Running.antt =====
-- The running flag between two calls of the threads (winSockServer/src/TcpServer.cpp).
use open_chat.Base.{◌≡◌, refl, ap, inl, inr, Option, Option-cases, get_elem?, OnSome}
use open_chat.Text.{c_string}
use open_chat.Platform.{Winsock}
use open_chat.Platform.ListCtrl.{ListCtrl}
use open_chat.Server.State.{App, TcpServer}
use open_chat.Server.Tcp.{add_client, get_client}
use open_chat.Server.ClientView.{insert_client, remove_client, notify_ui}
use open_chat.Server.Threads.{spawn_thread}
use open_chat.Server.Threads.Steps.{
  Place, at_head, selecting, accepting, inserting, notifying, adding, counting, getting, returned,
  advance,
}
use open_chat.Server.Calls.{
  Stage, watching, receiving, showing, removing, deleting, leaving, Event, serve, handler,
}
use open_chat.Server.Calls.Stepping.{handler-Handled}
use open_chat.ClientItem.{ClientItem}

-- The running flag is as it was.
abbrev pub SameRun : {lc : ListCtrl} → App lc → App lc → Type 0
SameRun a b = b.server.run ≡ a.server.run

module _ (os : Winsock) {lc : ListCtrl} where
  pub advance-SameRun :
      (p : Place) (a : App lc) → OnSome (λ (r : Place × App lc). SameRun a r.1) (advance os p a)
  unfolding advance insert_client notify_ui add_client spawn_thread get_client
  advance-SameRun at_head a = refl
  advance-SameRun selecting a = refl
  advance-SameRun accepting a = refl
  advance-SameRun (inserting addr sock) a = refl
  advance-SameRun (notifying addr sock) a = refl
  advance-SameRun (adding addr sock) a = refl
  advance-SameRun counting a = refl
  advance-SameRun (getting i) a = elim (Option-cases (get_elem? a.server.clients i)) [
    | inl missing ↦ rw missing tt
    | inr (c, found) ↦ rw found refl
  ]
  advance-SameRun returned a = refl

  pub serve-SameRun :
      (c : ClientItem) (stage : Stage) (a : App lc)
      → OnSome (λ (r : Option Stage × App lc). SameRun a r.1) (serve os c stage a)
  unfolding serve remove_client notify_ui
  serve-SameRun c watching a = refl
  serve-SameRun c receiving a = refl
  serve-SameRun c (showing buffer) a = elim (Option-cases (c_string buffer)) [
    | inl e ↦ rw (e, serve) tt
    | inr (t, e) ↦ rw (e, serve) refl
  ]
  serve-SameRun c removing a = refl
  serve-SameRun c deleting a = refl
  serve-SameRun c leaving a = refl

  pub handler-SameRun : (e : Event) (a : App lc) → SameRun a (handler os e a)
  handler-SameRun e a = ap (λ (t : TcpServer). t.run) (handler-Handled os e a).1
