-- ===== src/Server/Calls/Turns.antt =====
-- A whole turn of a thread as a run of calls of the process (winSockServer/src/TcpServer.cpp).
use open_chat.Base.{
  ℕ, zero, suc, ◌≡◌, refl, sym, ap, inl, inr, List, [], ◌∷◌, ◌++◌, map, length, drop, drop-length,
  drop-all, append-nil, map-append, Option, none, some, Option-cases, get_elem?, replicate,
  and_then, get_elem?-modify, modify-modify, erase_at-modify,
}
use open_chat.Text.{c_string}
use open_chat.ClientItem.{ClientItem}
use open_chat.Platform.{Winsock}
use open_chat.Platform.ListCtrl.{ListCtrl}
use open_chat.Server.State.{App, with_log, with_server}
use open_chat.Server.Tcp.{add_client, get_client}
use open_chat.Server.ClientView.{insert_client, remove_client, notify_ui}
use open_chat.Server.Threads.{spawn_thread, login_message}
use open_chat.Server.Threads.Steps.{
  Place, at_head, selecting, accepting, inserting, notifying, adding, counting, getting, returned,
  advance, advances,
}
use open_chat.Server.Calls.{
  Stage, watching, receiving, showing, removing, deleting, leaving, Thread, fresh, Process, Event,
  accept_call, client_call, moved, serve, step, run,
}
use open_chat.Server.Calls.Whole.{serves}

-- The state with other numbers of threads, which the calls never read.
abbrev pub keep : {lc : ListCtrl} → ℕ → List ClientItem → App lc → App lc
keep n all a = record a { accept_threads = n; client_threads = all }

-- The process in that state, where the accept thread stands at a place and each client thread at the
-- head of its loop.
abbrev pub between : {lc : ListCtrl} → ℕ → List ClientItem → Place → App lc → Process lc
between n all p a = record { app = keep n all a; place = p; threads = map fresh a.client_threads }

-- A call of the accept thread, and what it leaves of the process.
abbrev pub Arrives : {lc : ListCtrl} → ℕ → Option (Place × App lc) → Option (Process lc) → Type 0
Arrives n none r = r ≡ none
Arrives n (some (p, a)) r = (all : List ClientItem) × (r ≡ some (between n all p a))

pub none_started :
    (ts : List Thread) (all : List ClientItem) → ts ++ map fresh (drop (length all) all) ≡ ts
none_started ts all = rw (drop-all all) (append-nil ts)

one_started :
    (all ts : List ClientItem) (c : ClientItem)
    → map fresh ts ++ map fresh (drop (length all) (all ++ c ∷ [])) ≡ map fresh (ts ++ c ∷ [])
one_started all ts c = rw (drop-length all (c ∷ [])) (sym (map-append fresh ts (c ∷ [])))

module _ (os : Winsock) {lc : ListCtrl} where
  stays :
      (n : ℕ) (all : List ClientItem) (p : Place) (a : App lc)
      → (q : List ClientItem) × (◌≡◌ {A = Option (Process lc)}
          (some (record {
            app = keep n all a;
            place = p;
            threads = map fresh a.client_threads ++ map fresh (drop (length all) all);
          }))
          (some (between n q p a)))
  stays n all p a = (
    all,
    ap (λ (ts : List Thread). some (record { app = keep n all a; place = p; threads = ts }))
        (none_started (map fresh a.client_threads) all),
  )

  accept_call-Arrives :
      (n : ℕ) (all : List ClientItem) (p : Place) (a : App lc)
      → Arrives n (advance os p a) (step os accept_call (between n all p a))
  unfolding advance step insert_client notify_ui spawn_thread get_client
  accept_call-Arrives n all at_head a = stays n all _ a
  accept_call-Arrives n all selecting a = stays n all _ (with_log a _)
  accept_call-Arrives n all accepting a = stays n all _ (with_log a _)
  accept_call-Arrives n all (inserting addr sock) a =
      stays n all _ (insert_client os lc addr sock a)
  accept_call-Arrives n all (notifying addr sock) a =
      stays n all _ (notify_ui os lc (login_message os addr) a)
  accept_call-Arrives n all (adding addr sock) a =
      stays n all _ (with_server a (add_client os addr sock a.server))
  accept_call-Arrives n all counting a = stays n all _ a
  accept_call-Arrives n all (getting i) a = elim (Option-cases (get_client a.server i)) [
    | inl e ↦ rw e refl
    | inr (c, e) ↦ rw e (
      all ++ c ∷ [],
      ap
          (λ (ts : List Thread).
            some (record { app = keep n (all ++ c ∷ []) a; place = at_head; threads = ts }))
          (one_started all a.client_threads c),
    )
  ]
  accept_call-Arrives n all returned a = stays n all _ a

  -- Calls of the accept thread with nothing in between.
  pub accept_calls-Arrives :
      (k n : ℕ) (all : List ClientItem) (p : Place) (a : App lc)
      → Arrives n (advances os k (p, a)) (run os (replicate k accept_call) (between n all p a))
  unfolding advances run
  accept_calls-Arrives zero n all p a = (all, refl)
  accept_calls-Arrives (suc k) n all p a =
      go (advance os p a) (step os accept_call (between n all p a)) (accept_call-Arrives n all p a)
        (λ more q b. accept_calls-Arrives k n more q b)
    where
      go :
          (r : Option (Place × App lc)) (r' : Option (Process lc))
          → Arrives n r r'
          → ((more : List ClientItem) (q : Place) (b : App lc)
              → Arrives n
                  (advances os k (q, b))
                  (run os (replicate k accept_call) (between n more q b)))
          → Arrives n (and_then r (advances os k)) (and_then r' (run os (replicate k accept_call)))
      go none r' e rest = rw e refl
      go (some (q, b)) r' (more, e) rest = rw e (rest more q b)

moved-moved :
    (ts : List Thread) (i : ℕ) (stage : Stage) (o : Option Stage)
    → moved (moved ts i (some stage)) i o ≡ moved ts i o
moved-moved ts i stage none = erase_at-modify ts i _
moved-moved ts i stage (some next) = modify-modify ts i _ _

-- The process while the thread at index `i` is inside its turn, and what the rest of the turn leaves.
abbrev pub inside :
    {lc : ListCtrl}
    → ℕ
    → List ClientItem
    → Place
    → List Thread
    → ℕ
    → Option Stage × App lc
    → Process lc
inside n all p ts i s = record { app = keep n all s.1; place = p; threads = moved ts i s.0 }

module _ (os : Winsock) {lc : ListCtrl} where
  -- The calls never read the numbers of threads.
  serve-keep :
      (n : ℕ) (all : List ClientItem) (c : ClientItem) (stage : Stage) (a : App lc)
      → serve os c stage (keep n all a)
        ≡ and_then (serve os c stage a) (λ (s : Option Stage × App lc). some (s.0, keep n all s.1))
  unfolding serve remove_client notify_ui
  serve-keep n all c watching a = refl
  serve-keep n all c receiving a = refl
  serve-keep n all c (showing buffer) a = elim (Option-cases (c_string buffer)) [
    | inl e ↦ rw (e, serve) refl
    | inr (t, e) ↦ rw (e, serve) refl
  ]
  serve-keep n all c removing a = refl
  serve-keep n all c deleting a = refl
  serve-keep n all c leaving a = refl

  module _ (n : ℕ) (all : List ClientItem) (p : Place) (ts : List Thread) (i : ℕ) (c : ClientItem)
      (there : get_elem? ts i ≡ some (fresh c)) where
    client_call-inside :
        (stage : Stage) (a : App lc)
        → step os (client_call i) (inside n all p ts i (some stage, a))
          ≡ and_then
              (serve os c stage a)
              (λ (s : Option Stage × App lc). some (inside n all p ts i s))
    unfolding step
    client_call-inside stage a =
        let at =
          get_elem?-modify ts i (λ (t : Thread). record t { stage = stage }) (fresh c) there in
        rw (at, serve-keep n all c stage a) (go (serve os c stage a))
      where
        go :
            (r : Option (Option Stage × App lc))
            → and_then
                (and_then r (λ (s : Option Stage × App lc). some (s.0, keep n all s.1)))
                (λ (s : Option Stage × App lc). some (record (inside n all p ts i (some stage, a)) {
                  app = s.1;
                  threads = moved (moved ts i (some stage)) i s.0;
                }))
              ≡ and_then r (λ (s : Option Stage × App lc). some (inside n all p ts i s))
        go none = refl
        go (some (o, b)) =
            ap (λ (l : List Thread). some (record { app = keep n all b; place = p; threads = l }))
              (moved-moved ts i stage o)

    -- Calls of one client thread with nothing in between: as many as the thread makes.
    pub client_calls :
        (k : ℕ) (s : Option Stage × App lc)
        → (es : List Event) × (run os es (inside n all p ts i s)
            ≡ and_then
                (serves os k c s)
                (λ (t : Option Stage × App lc). some (inside n all p ts i t)))
    unfolding run
    client_calls zero s = ([], refl)
    client_calls (suc k) (none, a) = ([], refl)
    client_calls (suc k) (some stage, a) = elim (Option-cases (serve os c stage a)) [
      | inl e ↦ (client_call i ∷ [], rw (client_call-inside stage a, e) refl)
      | inr (t, e) ↦
          let (es, h) = client_calls k t in
          (client_call i ∷ es, rw (client_call-inside stage a, e) h)
    ]
