-- ===== src/Client/Calls/Honesty.antt =====
-- The status of the client over all interleavings of its calls (winSockClient/PCClient/ClientDlg.cpp,
-- winSockServer/src/TcpClient.cpp).
use open_chat.Base.{
  ℕ, ◌<◌, ◌≤◌, ◌≡◌, ◌⊎◌, refl, ◌∙◌, Bool, true, false, not, inl, inr, List, [], ◌∷◌, Option, none,
  some, Option-cases, get_elem?, get_elem?-SplitAt, ◌==◌, if_ind, OnSome, OnSome-then, OnSome-some,
  arith, is_positive, is_minus_one,
}
use open_chat.Text.{c_string}
use open_chat.Platform.{Winsock, read, off}
use open_chat.Server.Input.{Message, key_escape, key_return, key_other, no_key}
use open_chat.Client.Tcp.{ClientApp, client_dlg, select_socket, buf_size, server_addr}
use open_chat.Client.Dialog.{pre_translate_message, is_zero}
use open_chat.Client.Calls.{
  Stage, watching, receiving, asking, showing, answering, telling, marking, closing, Place, idle,
  creating, connecting, naming, failing, announcing, switching, Process, Event, click, dialog_call,
  thread_call, presses, takes_messages, moved, receive_call, start_connect, handle_key, thread_step,
  connect_call, step, run, at_rest,
}
use open_chat.Client.Calls.Counting.{
  is_early, is_live, one_if, count_at, weight, count_at-append, count_at-moved, early-le-live,
  early_stays,
}

-- While ConnectToServer is on its way from the start of the thread to the status ON, some thread has not
-- yet told that its connection is lost.
abbrev Expects : Place → List Stage → Type 0
Expects naming ts = 0 < count_at is_early ts
Expects announcing ts = 0 < count_at is_early ts
Expects switching ts = 0 < count_at is_early ts
Expects other ts = Unit

pub record IsHonest (s : Process) : Type 0 where
  pub honest : (s.app.server_status ≡ off) ⊎ (0 < count_at is_live s.threads)
  pub expects : Expects s.place s.threads

Expects-more :
    (p : Place) (ts us : List Stage)
    → (count_at is_early ts ≤ count_at is_early us) ⊎ (takes_messages p ≡ true)
    → Expects p ts
    → Expects p us
Expects-more naming ts us h e = early_stays ts us h e
Expects-more announcing ts us h e = early_stays ts us h e
Expects-more switching ts us h e = early_stays ts us h e
Expects-more idle ts us h e = tt
Expects-more creating ts us h e = tt
Expects-more connecting ts us h e = tt
Expects-more failing ts us h e = tt

-- What a call does to a thread: it stays early unless the dialog takes messages, and it stays live or
-- sets the status to OFF.
abbrev Calls : Bool → Stage → ClientApp → Option Stage × ClientApp → Type 0
Calls free stage a (o, b) =
    ((one_if (is_early stage) ≤ weight is_early o) ⊎ (free ≡ true))
    × ((b.server_status ≡ off)
        ⊎ ((one_if (is_live stage) ≤ weight is_live o) × (b.server_status ≡ a.server_status)))

module _ (os : Winsock) where
  receive_call-Calls :
      (free : Bool) (stage : Stage) (a : ClientApp)
      → OnSome (Calls free stage a) (receive_call os free stage a)
  unfolding receive_call
  receive_call-Calls free watching a =
      if_ind (λ (u : Stage). Calls free watching a (some u, a))
        (select_socket os a.client.m_socket 100 read a.log).0
        (λ _. (inl (omega arith), inr (omega arith, refl)))
        (λ _. (inl (omega arith), inr (omega arith, refl)))
  receive_call-Calls free receiving a =
      if_ind (λ (u : Stage). Calls free receiving a (some u, a))
        (is_positive (os.recv_ret a.log a.client.m_socket buf_size).count)
        (λ _. (inl (omega arith), inr (omega arith, refl)))
        (λ _. (inl (omega arith), inr (omega arith, refl)))
  receive_call-Calls free (asking msg) a = (inl (omega arith), inr (omega arith, refl))
  receive_call-Calls false (showing msg) a = (inl (omega arith), inr (omega arith, refl))
  receive_call-Calls true (showing msg) a = elim (Option-cases (c_string msg)) [
    | inl e ↦ rw (e, receive_call) tt
    | inr (t, e) ↦ rw (e, receive_call) (inl (omega arith), inr (omega arith, refl))
  ]
  receive_call-Calls free (answering msg) a = (inl (omega arith), inr (omega arith, refl))
  receive_call-Calls false telling a = (inl (omega arith), inr (omega arith, refl))
  receive_call-Calls true telling a = (inr refl, inr (omega arith, refl))
  receive_call-Calls free marking a = (inl (omega arith), inl refl)
  receive_call-Calls free closing a = (inl (omega arith), inr (omega arith, refl))

  thread_step-IsHonest :
      (i : ℕ) (o : Option Stage) (s : Process)
      → get_elem? s.threads i ≡ o
      → IsHonest s
      → OnSome IsHonest (thread_step os i o s)
  unfolding thread_step
  thread_step-IsHonest i none s there h = h
  thread_step-IsHonest i (some stage) s there h =
      OnSome-then (Calls (takes_messages s.place) stage s.app) IsHonest
        (receive_call os (takes_messages s.place) stage s.app) _
        (receive_call-Calls (takes_messages s.place) stage s.app) after
    where
      after :
          (r : Option Stage × ClientApp)
          → Calls (takes_messages s.place) stage s.app r
          → IsHonest (record s { app = r.1; threads = moved s.threads i r.0 })
      after (o, b) (early, live) =
          let at = get_elem?-SplitAt s.threads i stage there in
          record {
            honest = elim live [
              | inl down ↦ inl down
              | inr (le, same) ↦ elim h.honest [
                | inl down ↦ inl (same ∙ down)
                | inr runs ↦ inr (omega (arith, count_at-moved is_live s.threads i stage o at))
              ]
            ];
            expects =
                Expects-more s.place s.threads (moved s.threads i o)
                  (elim early [
                    | inl le ↦ inl (omega (arith, count_at-moved is_early s.threads i stage o at))
                    | inr free ↦ inr free
                  ])
                  h.expects;
          }

  connect_call-IsHonest :
      (p : Place) (s : Process) → s.place ≡ p → IsHonest s → IsHonest (connect_call os p s)
  unfolding connect_call
  connect_call-IsHonest p s e h = go p s h (rw (← e) h.expects)
    where
      go :
          (p : Place) (s : Process)
          → IsHonest s
          → Expects p s.threads
          → IsHonest (connect_call os p s)
      go idle s h e = h
      go creating s h e = record {
        honest = h.honest;
        expects =
            if_ind (λ (q : Place). Expects q s.threads)
              (os.socket_ret s.app.log == os.invalid_socket) (λ _. tt) (λ _. tt);
      }
      go connecting s h e =
          let a = s.app in
          let added = count_at-append is_early s.threads (watching ∷ []) in
          let kept = count_at-append is_live s.threads (watching ∷ []) in
          if_ind IsHonest
            (is_minus_one (os.connect_ret a.log a.client.m_socket (server_addr os a.client)))
            (λ _. record { honest = h.honest; expects = tt })
            (λ _. record { honest = inr (omega (arith, kept)); expects = omega (arith, added) })
      go naming s h e =
          if_ind IsHonest (not (is_zero (os.getsockname_ret s.app.log s.app.client.m_socket).ret))
            (λ _. record { honest = h.honest; expects = tt })
            (λ _. record { honest = h.honest; expects = e })
      go failing s h e = record { honest = h.honest; expects = tt }
      go announcing s h e = record { honest = h.honest; expects = e }
      go switching s h e = record {
        honest = inr (omega (arith, e, early-le-live s.threads));
        expects = tt;
      }

  start_connect-IsHonest : (p : Place) (s : Process) → IsHonest s → IsHonest (start_connect os p s)
  unfolding start_connect
  start_connect-IsHonest idle s h = record { honest = h.honest; expects = tt }
  start_connect-IsHonest creating s h = h
  start_connect-IsHonest connecting s h = h
  start_connect-IsHonest naming s h = h
  start_connect-IsHonest failing s h = h
  start_connect-IsHonest announcing s h = h
  start_connect-IsHonest switching s h = h

  handle_key-IsHonest :
      (p : Place) (m : Message) (s : Process) → IsHonest s → IsHonest (handle_key os p m s)
  unfolding handle_key pre_translate_message
  handle_key-IsHonest idle key_escape s h = h
  handle_key-IsHonest idle key_return s h = record { honest = h.honest; expects = h.expects }
  handle_key-IsHonest idle key_other s h = record { honest = h.honest; expects = h.expects }
  handle_key-IsHonest idle no_key s h = record { honest = h.honest; expects = h.expects }
  handle_key-IsHonest creating m s h = h
  handle_key-IsHonest connecting m s h = h
  handle_key-IsHonest naming m s h = h
  handle_key-IsHonest failing m s h = h
  handle_key-IsHonest announcing m s h = h
  handle_key-IsHonest switching m s h = h

  step-IsHonest : (e : Event) (s : Process) → IsHonest s → OnSome IsHonest (step os e s)
  unfolding step
  step-IsHonest click s h = start_connect-IsHonest s.place s h
  step-IsHonest dialog_call s h = connect_call-IsHonest s.place s refl h
  step-IsHonest (thread_call i) s h = thread_step-IsHonest i (get_elem? s.threads i) s refl h
  step-IsHonest (presses m) s h = handle_key-IsHonest s.place m s h

  run-IsHonest_from : (es : List Event) (s : Process) → IsHonest s → OnSome IsHonest (run os es s)
  unfolding run
  run-IsHonest_from [] s h = h
  run-IsHonest_from (e ∷ es) s h =
      OnSome-then IsHonest IsHonest (step os e s) (run os es) (step-IsHonest e s h)
        (λ t k. run-IsHonest_from es t k)

  -- Whatever calls the threads and the dialog make in whatever order, from the fresh dialog: the status is
  -- OFF, or there is a receiving thread that has not yet set it to OFF. This needs that a thread's AddInfo
  -- waits while the dialog's own thread is inside ConnectToServer and takes no messages.
  pub run-IsHonest_calls :
      (es : List Event) {s : Process}
      → run os es (at_rest (client_dlg os)) ≡ some s
      → (s.app.server_status ≡ off) ⊎ (0 < count_at is_live s.threads)
  unfolding client_dlg
  run-IsHonest_calls es e =
      (OnSome-some IsHonest (run os es (at_rest (client_dlg os)))
        (run-IsHonest_from es (at_rest (client_dlg os))
          (record { honest = inl refl; expects = tt }))
        e).honest
