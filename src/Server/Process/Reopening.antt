-- ===== src/Server/Process/Reopening.antt =====
-- The server closed and opened again at once (winSockServer/PCServer/ServerDlg.cpp).
use open_chat.Base.{◌+◌, ◌≡◌, refl, ap, ◌∙◌, true, [], ◌∷◌, ◌++◌, some}
use open_chat.Platform.{Winsock}
use open_chat.Platform.ListCtrl.{ListCtrl}
use open_chat.Server.State.{TcpServer}
use open_chat.Server.Tcp.{init}
use open_chat.Server.Threads.Effects.{clients-init}
use open_chat.Server.Threads.Steps.{at_head}
use open_chat.Server.Buttons.{on_btn_open, on_btn_close, is_enabled, id_button_2}
use open_chat.Server.Buttons.Outcome.{
  at_dialog_port, init-run, on_btn_open_lem, on_btn_open_keeps, on_btn_close_leaves,
}
use open_chat.Server.Process.{Process, opens, closes, press_open, handler, step, run}
use open_chat.Server.Process.Embedding.{other_count}

module _ (os : Winsock) {lc : ListCtrl} where
  -- Where the close button is enabled and Init succeeds, closing and opening again before any thread makes a
  -- call starts one more accept thread: those that are there are still at the calls where they stood, and
  -- the new one is at the head of its loop. The running flag is set, the vector is empty, and the rows of the
  -- list of clients and the client threads are all still there.
  pub reopen_adds_thread :
      (s : Process lc)
      → is_enabled id_button_2 s.app.log ≡ true
      → (init os (at_dialog_port (on_btn_close os s.app)) (on_btn_close os s.app).log).0 ≡ true
      → (t : Process lc) × (run os (closes ∷ opens ∷ []) s ≡ some t)
        × (t.places ≡ s.places ++ at_head ∷ [])
        × (t.threads ≡ s.threads)
        × (t.app.client_list ≡ s.app.client_list)
        × (t.app.server.clients ≡ [])
        × (t.app.server.run ≡ true)
  unfolding run step handler press_open
  reopen_adds_thread s shut done =
      let closed = on_btn_close os s.app in
      let left = on_btn_close_leaves os s.app in
      let opened = on_btn_open_lem os closed in
      let kept = on_btn_open_keeps os closed in
      let more : (on_btn_open os closed).accept_threads ≡ closed.accept_threads + 1 =
        opened.1 ∙ rw done refl in
      (
        record {
          app = on_btn_open os closed;
          places = s.places ++ at_head ∷ [];
          threads = s.threads;
        },
        rw (shut, left.5.0, more, other_count closed.accept_threads) refl,
        refl,
        refl,
        kept.0 ∙ left.2,
        ap (λ (t : TcpServer). t.clients) opened.0 ∙ clients-init os _ _ ∙ left.0,
        ap (λ (t : TcpServer). t.run) opened.0 ∙ init-run os _ _ done,
      )
