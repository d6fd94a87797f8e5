-- ===== src/Server/Process/Totality.antt =====
-- No thread of the server throws or reads past its buffer while the clients stay
-- (winSockServer/src/TcpServer.cpp).
use open_chat.Base.{
  ℕ, suc, ◌+◌, ◌-◌, ◌≤◌, ◌<◌, ◌^◌, ◌≡◌, ◌≢◌, refl, ap, ◌∙◌, Bool, true, false, List, [], ◌∷◌, ◌++◌,
  map, length, length-append, drop, arith, All, All-append, All-get_elem?, All-erase_at, All-modify,
  Option, none, some, Option-cases, inl, inr, get_elem?, get_elem?-none, if_ind, ◌==◌, is_positive,
  IsSomeWith, IsSomeWith-then, IsSomeWith-some,
}
use open_chat.Text.{Text, c_string}
use open_chat.ClientItem.{ClientItem}
use open_chat.Platform.{Winsock, Log, read}
use open_chat.Platform.ListCtrl.{ListCtrl}
use open_chat.Server.State.{App, TcpServer, max_buff, start, server_dlg, tcp_server}
use open_chat.Server.Tcp.{select_socket, add_client, client_num, item_of}
use open_chat.Server.ClientView.{insert_client, notify_ui}
use open_chat.Server.Threads.Effects.{clients-init}
use open_chat.Server.Threads.Steps.{
  Place, at_head, selecting, accepting, inserting, notifying, adding, counting, getting, returned,
  advance,
}
use open_chat.Server.Threads.Steps.Whole.{getting-found}
use open_chat.Server.Buttons.{on_btn_open, is_enabled, id_button_1}
use open_chat.Server.Buttons.Outcome.{on_btn_open_lem}
use open_chat.Server.System.{opened_dialog}
use open_chat.Server.System.Faultless.{ShortMessages, received_in-terminated}
use open_chat.Server.Calls
use open_chat.Server.Calls.{
  Stage, watching, receiving, showing, removing, deleting, leaving, Thread, fresh, moved, started,
  serve,
}
use open_chat.Server.Calls.Stepping.{handler-Handled}
use open_chat.Server.Process.{
  Process, Event, accept_call, client_call, opens, closes, presses, picks_file, ticks, checks,
  stood, spawned, accept_step, client_step, press_open, handler, step, run, shown,
}

-- No client hangs up: `recv` always has something.
abbrev pub StayConnected : Winsock → Type 0
StayConnected os = (h : Log) (sock : ℕ) → is_positive (os.recv_ret h sock max_buff).count ≡ true

-- An accept thread that has counted the clients finds one at its index, where there are `m`.
abbrev Finds : ℕ → Place → Type 0
Finds m counting = 0 < m
Finds m (getting i) = i < m
Finds m other = Unit

-- A client thread is not on its way out, and what it has received ends in its array.
abbrev Stays : Stage → Type 0
Stays (showing buffer) = (t : Text) × (c_string buffer ≡ some t)
Stays removing = ⊥
Stays deleting = ⊥
Stays leaving = ⊥
Stays other = Unit

abbrev StaysNext : Option Stage → Type 0
StaysNext none = ⊥
StaysNext (some stage) = Stays stage

abbrev Served : Thread → Type 0
Served t = Stays t.stage

record Sound {lc : ListCtrl} (n : ℕ) (s : Process lc) : Type 0 where
  few : length s.app.server.clients ≤ n
  find : All (Finds (length s.app.server.clients)) s.places
  stay : All Served s.threads

Finds-more : (m k : ℕ) (p : Place) → m ≤ k → Finds m p → Finds k p
Finds-more m k counting le h = omega arith
Finds-more m k (getting i) le h = omega arith
Finds-more m k at_head le h = tt
Finds-more m k selecting le h = tt
Finds-more m k accepting le h = tt
Finds-more m k (inserting addr sock) le h = tt
Finds-more m k (notifying addr sock) le h = tt
Finds-more m k (adding addr sock) le h = tt
Finds-more m k returned le h = tt

All-Finds-more : (m k : ℕ) (ps : List Place) → m ≤ k → All (Finds m) ps → All (Finds k) ps
All-Finds-more m k [] le h = tt
All-Finds-more m k (p ∷ ps) le h = (Finds-more m k p le h.0, All-Finds-more m k ps le h.1)

All-stood :
    (P : Place → Type 0) (ps : List Place) (i : ℕ) (q : Place)
    → P q
    → All P ps
    → All P (stood ps i q)
All-stood P ps i returned h all = All-erase_at P ps i all
All-stood P ps i counting h all = All-modify P ps i (λ _. counting) (λ _. h) all
All-stood P ps i (getting j) h all = All-modify P ps i (λ _. getting j) (λ _. h) all
All-stood P ps i at_head h all = All-modify P ps i (λ _. at_head) (λ _. h) all
All-stood P ps i selecting h all = All-modify P ps i (λ _. selecting) (λ _. h) all
All-stood P ps i accepting h all = All-modify P ps i (λ _. accepting) (λ _. h) all
All-stood P ps i (inserting a s) h all = All-modify P ps i (λ _. inserting a s) (λ _. h) all
All-stood P ps i (notifying a s) h all = All-modify P ps i (λ _. notifying a s) (λ _. h) all
All-stood P ps i (adding a s) h all = All-modify P ps i (λ _. adding a s) (λ _. h) all

fresh-Served : (cs : List ClientItem) → All Served (map fresh cs)
fresh-Served [] = tt
fresh-Served (c ∷ cs) = (tt, fresh-Served cs)

All-moved :
    (ts : List Thread) (i : ℕ) (o : Option Stage)
    → StaysNext o
    → All Served ts
    → All Served (moved ts i o)
All-moved ts i none next all = absurd next
All-moved ts i (some stage) next all =
    All-modify Served ts i (λ (t : Thread). record t { stage = stage }) (λ _. next) all

not_both : {b : Bool} → b ≡ true → b ≡ false → ⊥
not_both yes_it no_it = cc

module _ (os : Winsock) {lc : ListCtrl} where
  -- What a call of an accept thread leaves.
  abbrev Grows : ℕ → App lc → Place × App lc → Type 0
  Grows n a (p, b) =
      (length a.server.clients ≤ length b.server.clients)
      × (length b.server.clients ≤ suc n)
      × Finds (length b.server.clients) p

  advance-Grows :
      (n : ℕ) (p : Place) (a : App lc)
      → n < 2 ^ 32 - 1
      → length a.server.clients ≤ n
      → Finds (length a.server.clients) p
      → IsSomeWith (Grows n a) (advance os p a)
  unfolding advance insert_client notify_ui add_client client_num
  advance-Grows n at_head a lt le h =
      if_ind (λ (p : Place). Grows n a (p, a)) a.server.run (λ _. (omega arith, omega arith, tt))
        (λ _. (omega arith, omega arith, tt))
  advance-Grows n selecting a lt le h =
      if_ind (λ (p : Place). Grows n a (p, a)) (select_socket os a.server.lis_sock 100 read a.log).0
        (λ _. (omega arith, omega arith, tt)) (λ _. (omega arith, omega arith, tt))
  advance-Grows n accepting a lt le h =
      if_ind (λ (p : Place). Grows n a (p, a))
        ((os.accept_ret a.log a.server.lis_sock).sock == os.invalid_socket)
        (λ _. (omega arith, omega arith, tt)) (λ _. (omega arith, omega arith, tt))
  advance-Grows n (inserting addr sock) a lt le h = (omega arith, omega arith, tt)
  advance-Grows n (notifying addr sock) a lt le h = (omega arith, omega arith, tt)
  advance-Grows n (adding addr sock) a lt le h =
      let longer = length-append a.server.clients (item_of os addr sock ∷ []) in
      (omega (arith, longer), omega (arith, longer), omega (arith, longer))
  advance-Grows n counting a lt le h = (omega arith, omega arith, omega arith)
  advance-Grows n (getting i) a lt le h = elim (Option-cases (get_elem? a.server.clients i)) [
    | inl missing ↦ absurd (omega (arith, get_elem?-none a.server.clients i missing))
    | inr (c, found) ↦ rw (getting-found os a i c found) (omega arith, omega arith, tt)
  ]
  advance-Grows n returned a lt le h = (omega arith, omega arith, tt)

  serve-Stays :
      (c : ClientItem) (stage : Stage) (a : App lc)
      → ShortMessages os
      → StayConnected os
      → Stays stage
      → IsSomeWith
          (λ (r : Option Stage × App lc). StaysNext r.0 × (r.1.server ≡ a.server))
          (serve os c stage a)
  unfolding serve
  serve-Stays c watching a short stay k =
      if_ind (λ (t : Stage). Stays t × (a.server ≡ a.server))
        (select_socket os c.c_socket 100 read a.log).0 (λ _. (tt, refl)) (λ _. (tt, refl))
  serve-Stays c receiving a short stay k =
      let r = os.recv_ret a.log c.c_socket max_buff in
      if_ind (λ (t : Stage). Stays t × (a.server ≡ a.server)) (is_positive r.count)
        (λ got. (received_in-terminated max_buff r (short a.log c.c_socket) got, refl))
        (λ hung. absurd (not_both (stay a.log c.c_socket) hung))
  serve-Stays c (showing buffer) a short stay (t, e) = rw (e, serve) (tt, refl)
  serve-Stays c removing a short stay k = absurd k
  serve-Stays c deleting a short stay k = absurd k
  serve-Stays c leaving a short stay k = absurd k

module _ (os : Winsock) {lc : ListCtrl} (short : ShortMessages os) (stay : StayConnected os) where
  Sound-suc : {n : ℕ} (s : Process lc) → Sound n s → Sound (suc n) s
  Sound-suc s k = record { few = omega (arith, k.few); find = k.find; stay = k.stay }

  accept_step-Sound :
      {n : ℕ} (i : ℕ) (o : Option Place) (s : Process lc)
      → get_elem? s.places i ≡ o
      → n < 2 ^ 32 - 1
      → Sound n s
      → IsSomeWith (Sound (suc n)) (accept_step os i o s)
  unfolding accept_step
  accept_step-Sound i none s there lt k = Sound-suc s k
  accept_step-Sound {n} i (some p) s there lt k =
      let cs = s.app.server.clients in
      IsSomeWith-then (Grows os n s.app) (Sound (suc n)) (advance os p s.app) _
        (advance-Grows os n p s.app lt k.few
          (All-get_elem? (Finds (length cs)) s.places i p there k.find))
        (λ (q, b) (more, few, find). record {
          few = few;
          find =
              All-stood (Finds (length b.server.clients)) s.places i q find
                (All-Finds-more (length cs) (length b.server.clients) s.places more k.find);
          stay =
              All-append Served s.threads (started s.app b) k.stay
                (fresh-Served (drop (length s.app.client_threads) b.client_threads));
        })

  client_step-Sound :
      {n : ℕ} (i : ℕ) (o : Option Thread) (s : Process lc)
      → get_elem? s.threads i ≡ o
      → Sound n s
      → IsSomeWith (Sound (suc n)) (client_step os i o s)
  unfolding client_step
  client_step-Sound i none s there k = Sound-suc s k
  client_step-Sound {n} i (some t) s there k =
      IsSomeWith-then (λ (r : Option Stage × App lc). StaysNext r.0 × (r.1.server ≡ s.app.server))
        (Sound (suc n)) (serve os t.client t.stage s.app) _
        (serve-Stays os t.client t.stage s.app short stay
          (All-get_elem? Served s.threads i t there k.stay))
        (λ (o, b) (next, same). record {
          few = omega (arith, k.few, ap (λ (r : TcpServer). length r.clients) same);
          find = rw same k.find;
          stay = All-moved s.threads i o next k.stay;
        })

  -- A handler that keeps the vector.
  handled-Sound :
      {n : ℕ} (s : Process lc) (b : App lc)
      → b.server.clients ≡ s.app.server.clients
      → Sound n s
      → Sound (suc n) (record s { app = b })
  handled-Sound s b same k = record {
    few = omega (arith, k.few, ap length same);
    find = rw same k.find;
    stay = k.stay;
  }

  handled :
      {n : ℕ} (e : Calls.Event) (s : Process lc)
      → Sound n s
      → Sound (suc n) (record s { app = Calls.handler os e s.app })
  handled e s k =
      handled-Sound s (Calls.handler os e s.app)
        (ap (λ (t : TcpServer). t.clients) (handler-Handled os e s.app).1) k

  press-Sound :
      {n : ℕ} (s : Process lc)
      → Sound n s
      → Sound (suc n) (record s {
        app = on_btn_open os s.app;
        places = s.places ++ spawned s.app (on_btn_open os s.app);
      })
  press-Sound s k =
      let b = on_btn_open os s.app in
      let same : b.server.clients ≡ s.app.server.clients =
        ap (λ (t : TcpServer). t.clients) (on_btn_open_lem os s.app).0 ∙ clients-init os _ _ in
      record {
        few = omega (arith, k.few, ap length same);
        find = rw same (
            All-append (Finds (length s.app.server.clients)) s.places (spawned s.app b) k.find (
              if_ind (All (Finds (length s.app.server.clients)))
                (b.accept_threads == s.app.accept_threads) (λ _. tt) (λ _. (tt, tt))));
        stay = k.stay;
      }

  step-Sound :
      {n : ℕ} (e : Event) (s : Process lc)
      → e ≢ closes
      → n < 2 ^ 32 - 1
      → Sound n s
      → IsSomeWith (Sound (suc n)) (step os e s)
  unfolding step press_open handler Calls.step
  step-Sound (accept_call i) s up lt k = accept_step-Sound i (get_elem? s.places i) s refl lt k
  step-Sound (client_call i) s up lt k = client_step-Sound i (get_elem? s.threads i) s refl k
  step-Sound {n} opens s up lt k =
      if_ind (Sound (suc n)) (is_enabled id_button_1 s.app.log) (λ _. press-Sound s k)
        (λ _. Sound-suc s k)
  step-Sound closes s up lt k = absurd (up refl)
  step-Sound (presses m) s up lt k = handled (Calls.presses m) s k
  step-Sound (picks_file f) s up lt k = handled (Calls.picks_file f) s k
  step-Sound (ticks id now) s up lt k = handled (Calls.ticks id now) s k
  step-Sound (checks row b) s up lt k = handled (Calls.checks row b) s k

  run-Sound :
      {n : ℕ} (es : List Event) (s : Process lc)
      → All (λ e. e ≢ closes) es
      → length es + n < 2 ^ 32
      → Sound n s
      → IsSomeWith (λ _. Unit {0}) (run os es s)
  unfolding run
  run-Sound [] s up lt k = tt
  run-Sound {n} (e ∷ es) s up lt k =
      IsSomeWith-then (Sound (suc n)) (λ _. Unit) (step os e s) (run os es)
        (step-Sound e s up.0 (omega arith) k) (λ t h. run-Sound es t up.1 (omega arith) h)

-- While the clients stay connected and the server is not closed, no interleaving of single calls throws or
-- reads past a buffer: from the dialog before any button is pressed, if every `recv` hands out at least one
-- byte and fewer than ClientFunc's buffer has, and if a std::thread can always be started, each sequence of
-- fewer than 2^32 - 1 calls of threads and handlers other than OnBtn_Close has a final state.
pub run_completes :
    (os : Winsock) {lc : ListCtrl} (ctrl : lc.Ctrl) (es : List Event)
    → ShortMessages os
    → StayConnected os
    → All (λ e. e ≢ closes) es
    → length es < 2 ^ 32 - 1
    → (s : Process lc) × (run os es (shown os lc ctrl) ≡ some s)
unfolding opened_dialog start server_dlg tcp_server
run_completes os {lc} ctrl es short stay up lt =
    let (s, e, _) =
      IsSomeWith-some (λ _. Unit) (run os es (shown os lc ctrl))
        (run-Sound os short stay {n = 0} es (shown os lc ctrl) up (omega arith)
          (record { few = omega arith; find = tt; stay = tt })) in
    (s, e)
