-- ===== src/Server/Process/Listening.antt =====
-- The listening socket and the open button over all interleavings (winSockServer/).
use open_chat.Base.{
  ℕ, ◌≡◌, refl, true, List, [], ◌∷◌, Option, none, some, Option-cases, get_elem?, if_ind, inl, inr,
  OnSome, OnSome-then, OnSome-some, if◌then◌else◌,
}
use open_chat.Text.{c_string}
use open_chat.ClientItem.{ClientItem}
use open_chat.Platform.{Winsock}
use open_chat.Platform.ListCtrl.{ListCtrl}
use open_chat.Server.State.{App, start, server_dlg, tcp_server}
use open_chat.Server.Tcp.{add_client, get_client}
use open_chat.Server.ClientView.{insert_client, remove_client, notify_ui, add_info, set_style}
use open_chat.Server.Threads.{spawn_thread}
use open_chat.Server.Threads.Steps.{
  Place, at_head, selecting, accepting, inserting, notifying, adding, counting, getting, returned,
  advance,
}
use open_chat.Server.Buttons.{is_enabled, id_button_1, id_button_2, id_button_3}
use open_chat.Server.System.{opened_dialog}
use open_chat.Server.System.Guard.{Guarded, Guarded-frame, listening, select_socket-Keeps}
use open_chat.Server.System.Opening.{
  on_timer-Guarded, message-Guarded, on_btn_file-Guarded, on_btn_open-Guarded, on_btn_close-Guarded,
}
use open_chat.Server.Calls.{
  Stage, watching, receiving, showing, removing, deleting, leaving, Thread, serve,
}
use open_chat.Server.Process.{
  Process, Event, accept_call, client_call, opens, closes, presses, picks_file, ticks, checks,
  accept_step, client_step, press_open, handler, step, run, shown,
}

module _ (os : Winsock) {lc : ListCtrl} where
  advance-Guarded :
      (p : Place) (a : App lc)
      → Guarded os a
      → OnSome (λ (r : Place × App lc). Guarded os r.1) (advance os p a)
  unfolding advance insert_client notify_ui add_client is_enabled spawn_thread get_client
  advance-Guarded at_head a g = g
  advance-Guarded selecting a g =
      Guarded-frame refl (select_socket-Keeps os a.server.lis_sock a.log) g
  advance-Guarded accepting a g = Guarded-frame refl refl g
  advance-Guarded (inserting addr sock) a g = Guarded-frame refl refl g
  advance-Guarded (notifying addr sock) a g = Guarded-frame refl refl g
  advance-Guarded (adding addr sock) a g = Guarded-frame refl refl g
  advance-Guarded counting a g = g
  advance-Guarded (getting i) a g = elim (Option-cases (get_elem? a.server.clients i)) [
    | inl missing ↦ rw missing tt
    | inr (c, found) ↦ rw found (Guarded-frame refl refl g)
  ]
  advance-Guarded returned a g = g

  serve-Guarded :
      (c : ClientItem) (stage : Stage) (a : App lc)
      → Guarded os a
      → OnSome (λ (r : Option Stage × App lc). Guarded os r.1) (serve os c stage a)
  unfolding serve remove_client notify_ui is_enabled add_info set_style
  serve-Guarded c watching a g = Guarded-frame refl (select_socket-Keeps os c.c_socket a.log) g
  serve-Guarded c receiving a g = Guarded-frame refl refl g
  serve-Guarded c (showing buffer) a g = elim (Option-cases (c_string buffer)) [
    | inl e ↦ rw (e, serve) tt
    | inr (t, e) ↦ rw (e, serve) (Guarded-frame refl refl g)
  ]
  serve-Guarded c removing a g = Guarded-frame refl refl g
  serve-Guarded c deleting a g = Guarded-frame refl refl g
  serve-Guarded c leaving a g = Guarded-frame refl refl g

  abbrev pub GuardedProcess : Process lc → Type 0
  GuardedProcess s = Guarded os s.app

  accept_step-Guarded :
      (i : ℕ) (o : Option Place) (s : Process lc)
      → GuardedProcess s
      → OnSome GuardedProcess (accept_step os i o s)
  unfolding accept_step
  accept_step-Guarded i none s g = g
  accept_step-Guarded i (some p) s g =
      OnSome-then (λ (r : Place × App lc). Guarded os r.1) GuardedProcess (advance os p s.app) _
        (advance-Guarded p s.app g) (λ r h. h)

  client_step-Guarded :
      (i : ℕ) (o : Option Thread) (s : Process lc)
      → GuardedProcess s
      → OnSome GuardedProcess (client_step os i o s)
  unfolding client_step
  client_step-Guarded i none s g = g
  client_step-Guarded i (some t) s g =
      OnSome-then (λ (r : Option Stage × App lc). Guarded os r.1) GuardedProcess
        (serve os t.client t.stage s.app) _ (serve-Guarded t.client t.stage s.app g) (λ r h. h)

  pub step-Guarded :
      (e : Event) (s : Process lc) → GuardedProcess s → OnSome GuardedProcess (step os e s)
  unfolding step press_open handler
  step-Guarded (accept_call i) s g = accept_step-Guarded i (get_elem? s.places i) s g
  step-Guarded (client_call i) s g = client_step-Guarded i (get_elem? s.threads i) s g
  step-Guarded opens s g =
      if_ind GuardedProcess (is_enabled id_button_1 s.app.log)
        (λ enabled. on_btn_open-Guarded os s.app enabled g) (λ _. g)
  step-Guarded closes s g =
      if_ind (Guarded os) (is_enabled id_button_2 s.app.log) (λ _. on_btn_close-Guarded os s.app g)
        (λ _. g)
  step-Guarded (presses m) s g = message-Guarded os m s.app g
  step-Guarded (picks_file f) s g =
      if_ind (Guarded os) (is_enabled id_button_3 s.app.log) (λ _. on_btn_file-Guarded os f s.app g)
        (λ _. g)
  step-Guarded (ticks id now) s g = on_timer-Guarded os id now s.app g
  step-Guarded (checks row b) s g = Guarded-frame refl refl g

  pub run-Guarded :
      (es : List Event) (s : Process lc) → GuardedProcess s → OnSome GuardedProcess (run os es s)
  unfolding run
  run-Guarded [] s g = g
  run-Guarded (e ∷ es) s g =
      OnSome-then GuardedProcess GuardedProcess (step os e s) (run os es) (step-Guarded e s g)
        (λ t h. run-Guarded es t h)

  reached :
      (ctrl : lc.Ctrl) (es : List Event) {s : Process lc}
      → run os es (shown os lc ctrl) ≡ some s
      → GuardedProcess s
  unfolding opened_dialog start server_dlg tcp_server
  reached ctrl es e =
      OnSome-some GuardedProcess (run os es (shown os lc ctrl))
        (run-Guarded es (shown os lc ctrl) (record { guard = inl refl; listens = refl })) e

  -- However the calls of all threads and the handlers interleave, closes and reopenings included, from the
  -- dialog before any button is pressed: while the server runs, the first button does nothing, so that no
  -- second Init overwrites the listening socket.
  pub opens_once :
      (ctrl : lc.Ctrl) (es : List Event) {s : Process lc}
      → run os es (shown os lc ctrl) ≡ some s
      → s.app.server.run ≡ true
      → step os opens s ≡ some s
  unfolding step press_open
  opens_once ctrl es e runs = elim (reached ctrl es e).guard [
    | inl off ↦ absurd (cc)
    | inr disabled ↦ rw disabled refl
  ]

  -- However the calls of all threads and the handlers interleave, closes and reopenings included, from the
  -- dialog before any button is pressed: of the sockets on which a `listen` has succeeded and that no
  -- `closesocket` has closed since, the server's own is the only one while the server runs, and there is
  -- none while it does not.
  pub listens_alone :
      (ctrl : lc.Ctrl) (es : List Event) {s : Process lc}
      → run os es (shown os lc ctrl) ≡ some s
      → listening os s.app.log ≡ (if s.app.server.run then s.app.server.lis_sock ∷ [] else [])
  listens_alone ctrl es e = (reached ctrl es e).listens
