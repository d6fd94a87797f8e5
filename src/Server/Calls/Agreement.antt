-- ===== src/Server/Calls/Agreement.antt =====
-- Between any two calls of the threads the list of clients shown is TcpServer's vector, but for the
-- clients that are on their way in or out (winSockServer/).
use open_chat.Base.{
  ℕ, suc, ◌+◌, ◌-◌, ◌<◌, ◌^◌, ◌≡◌, refl, ap, List, [], ◌∷◌, ◌++◌, map, length, some, arith, if_ind,
  OnSome, OnSome-then, OnSome-some, ◌∙◌, ◌==◌,
}
use open_chat.Platform.{Winsock}
use open_chat.Platform.ListCtrl.{ListCtrl}
use open_chat.Server.State.{App, TcpServer, start, server_dlg, tcp_server}
use open_chat.Server.Buttons.{on_btn_open}
use open_chat.Server.System.InSync.{entry, shown, Documented}
use open_chat.Server.Calls.{Process, Event, step, run, opened}
use open_chat.Server.Calls.Standing.{is_gone, is_served, clients_at}
use open_chat.Server.Calls.InStep.{InStep, coming, Spawned}
use open_chat.Server.Calls.Leaving.{without}
use open_chat.Server.Threads.Steps.{Place}
use open_chat.Server.System.{opened_dialog}
use open_chat.Server.Buttons.Outcome.{on_btn_open_lem, on_btn_open_keeps}
use open_chat.Server.Threads.Effects.{clients-init}
use open_chat.Server.Calls.Stepping.{step-InStep}

module _ (os : Winsock) {lc : ListCtrl} where
  -- What holds between two calls, with no count of the clients.
  abbrev pub AgreesUpTo : Process lc → Type 0
  AgreesUpTo s =
      let cs = s.app.server.clients in
      (map entry (lc.rows s.app.client_list)
        ≡ map (shown os) (without (clients_at is_gone s.threads) cs ++ coming os s.place))
      × Spawned s.place cs (clients_at is_served s.threads)

  run-AgreesUpTo :
      {n : ℕ} (es : List Event) (s : Process lc)
      → Documented os
      → length es + n < 2 ^ 32
      → InStep os n s
      → OnSome AgreesUpTo (run os es s)
  unfolding run
  run-AgreesUpTo [] s d lt k = (k.shows, k.spawned)
  run-AgreesUpTo {n} (e ∷ es) s d lt k =
      OnSome-then (InStep os (suc n)) AgreesUpTo (step os e s) (run os es)
        (step-InStep os e s d (omega arith) k) (λ r h. run-AgreesUpTo es r d (omega arith) h)

  opened-InStep :
      (a : App lc) → lc.rows a.client_list ≡ [] → a.server.clients ≡ [] → InStep os 0 (opened a)
  opened-InStep a rows none_yet =
      if_ind (λ (p : Place). InStep os 0 (record { app = a; place = p; threads = [] }))
        (a.accept_threads == 0)
        (λ _. record {
          shows = rw (rows, none_yet) refl;
          ports = rw none_yet tt;
          few = omega (arith, ap length none_yet);
          spawned = λ p. rw none_yet refl;
        })
        (λ _. record {
          shows = rw (rows, none_yet) refl;
          ports = rw none_yet tt;
          few = omega (arith, ap length none_yet);
          spawned = λ p. rw none_yet refl;
        })

  -- Whatever calls the threads make in whatever order after the server has been opened on an empty list,
  -- with the handlers of the dialog but OnBtn_Close in between, and whatever the network answers (ports of
  -- 16 bits, and one text for an address from inet_ntop and from inet_ntoa), before 2^32 - 1 steps: the
  -- rows show exactly the clients in TcpServer's vector, in its order, but for those whose thread stands
  -- between RemoveClient and DeleteClient, and with the one that the accept thread has shown and not yet
  -- added; and the vector has the ports of the clients that threads serve, each as often, with one client
  -- more at its end exactly while the accept thread stands between AddClient and the start of its thread.
  run-agrees :
      Documented os
      → (ctrl : lc.Ctrl) (es : List Event) {s : Process lc} → lc.rows ctrl ≡ []
      → length es < 2 ^ 32 - 1
      → run os es (opened (on_btn_open os (opened_dialog os lc ctrl))) ≡ some s
      → AgreesUpTo s
  run-agrees d ctrl es empty lt e =
      let a = opened_dialog os lc ctrl in
      let kept = on_btn_open_keeps os a in
      OnSome-some AgreesUpTo (run os es (opened (on_btn_open os a)))
        (run-AgreesUpTo {n = 0} es (opened (on_btn_open os a)) d (omega arith) (
          opened-InStep (on_btn_open os a)
            (ap lc.rows kept.0 ∙ unfold opened_dialog start server_dlg in empty)
            (ap (λ (t : TcpServer). t.clients) (on_btn_open_lem os a).0
              ∙ clients-init os _ _
              ∙ unfold opened_dialog start server_dlg tcp_server in refl)))
        e
