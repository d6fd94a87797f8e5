-- ===== src/Server/Calls/Arrivals.antt =====
-- What the calls of the accept thread keep (SelectFunc of winSockServer/src/TcpServer.cpp).
use open_chat.Base.{
  ℕ, suc, ◌+◌, ◌-◌, ◌≤◌, ◌<◌, ◌^◌, ◌%◌, ◌≡◌, refl, sym, ap, ap₂, ◌∙◌, List, [], ◌∷◌, ◌++◌, map,
  map-append, append-nil, length, length-append, length-map, insert_at-past, get_elem?,
  get_elem?-last, drop, drop-length, drop-all, some, All-append, arith, OnSome, Option-cases, inl,
  inr, subst, if_ind, ◌==◌,
}
use open_chat.Text.{Text}
use open_chat.ClientItem.{ClientItem}
use open_chat.Platform.{Winsock, SockAddr, read, accept}
use open_chat.Platform.ListCtrl.{ListCtrl}
use open_chat.Server.State.{App, TcpServer, with_server, with_log}
use open_chat.Server.Tcp.{add_client, item_of, client_num, get_client, select_socket}
use open_chat.Server.Tcp.Ports.{SamePorts-enter}
use open_chat.Server.ClientView.{insert_client, notify_ui}
use open_chat.Server.ClientView.Rows.{rows-insert_client, row_of}
use open_chat.Server.Threads.{spawn_thread, login_message}
use open_chat.Server.Threads.Steps.{
  Place, at_head, selecting, accepting, inserting, notifying, adding, counting, getting, returned,
  advance,
}
use open_chat.Server.System.InSync.{entry, shown, Documented, HasPort, entry-row_of}
use open_chat.Server.Calls.{Thread, fresh, started, Process, step, accept_call}
use open_chat.Server.Calls.Leaving.{without, Within, without-append, length-without-le}
use open_chat.Server.Calls.Standing.{
  is_gone, is_served, clients_at, clients_at-append, gone-Within-served,
}
use open_chat.Server.Calls.InStep.{coming, Spawned, InStep, InStep-frame, InStep-suc}

abbrev process : {lc : ListCtrl} → App lc → Place → List Thread → Process lc
process a p ts = record { app = a; place = p; threads = ts }

started-none : {lc : ListCtrl} (a : App lc) (ts : List Thread) → ts ++ started a a ≡ ts
started-none a ts = rw (drop-all a.client_threads) (append-nil ts)

module _ (os : Winsock) {lc : ListCtrl} where
  module _ {n : ℕ} (a : App lc) (ts : List Thread) where
    -- InsertClient puts the new row behind the others.
    insert-InStep :
        (addr : SockAddr) (sock : ℕ)
        → Documented os
        → n < 2 ^ 32 - 1
        → InStep os n (process a (inserting addr sock) ts)
        → InStep os n (process (insert_client os lc addr sock a) (notifying addr sock) ts)
    unfolding insert_client
    insert-InStep addr sock d lt k =
        let L = without (clients_at is_gone ts) a.server.clients in
        let fewer : length (lc.rows a.client_list) ≤ client_num a.server =
          unfold client_num in
          omega (
            arith,
            k.few,
            ap length k.shows,
            length-map (lc.rows a.client_list) entry,
            length-map (L ++ []) (shown os),
            length-append L [],
            length-without-le (clients_at is_gone ts) a.server.clients,
          ) in
        record {
          shows =
              ap (map entry) (
                rows-insert_client os lc addr sock a
                ∙ insert_at-past (lc.rows a.client_list) (client_num a.server) (row_of os addr sock)
                    fewer)
              ∙ map-append entry (lc.rows a.client_list) (row_of os addr sock ∷ [])
              ∙ ap₂ ◌++◌ (k.shows ∙ ap (map (shown os)) (append-nil L))
                  (ap (λ (t : Text × Text × Text). t ∷ []) (entry-row_of os d addr sock))
              ∙ sym (map-append (shown os) L (item_of os addr sock ∷ []));
          ports = k.ports;
          few = k.few;
          spawned = k.spawned;
        }

    add-InStep :
        (addr : SockAddr) (sock : ℕ)
        → Documented os
        → InStep os n (process a (adding addr sock) ts)
        → InStep os (suc n) (process (with_server a (add_client os addr sock a.server)) counting ts)
    unfolding add_client
    add-InStep addr sock d k =
        let cs = a.server.clients in
        let item = item_of os addr sock in
        let inside : Within (clients_at is_gone ts) cs =
          λ q. omega (arith, gone-Within-served ts q, k.spawned q) in
        record {
          shows =
              k.shows
              ∙ ap (map (shown os)) (
                  sym (without-append (clients_at is_gone ts) cs (item ∷ []) inside)
                  ∙ sym (append-nil _));
          ports = All-append HasPort cs (item ∷ []) k.ports (d.ntohs-lt addr.sin_port, tt);
          few = omega (arith, k.few, length-append cs (item ∷ []));
          spawned = (cs, item, refl, k.spawned, omega (arith, length-append cs (item ∷ [])));
        }

    count-InStep :
        n < 2 ^ 32 - 1
        → InStep os n (process a counting ts)
        → InStep os n (process a (getting ((client_num a.server + 2 ^ 32 - 1) % 2 ^ 32)) ts)
    unfolding client_num
    count-InStep lt k =
        let (front, last, e, same, le) = k.spawned in
        record {
          shows = k.shows;
          ports = k.ports;
          few = k.few;
          spawned = (
            front,
            last,
            e,
            same,
            omega (arith, k.few, ap length e, length-append front (last ∷ [])),
          );
        }

    get-InStep :
        (i : ℕ) (c : ClientItem)
        → get_elem? a.server.clients i ≡ some c
        → InStep os n (process a (getting i) ts)
        → InStep os n (
            process
              (record a { client_threads = a.client_threads ++ c ∷ [] })
              at_head
              (ts ++ fresh c ∷ []))
    get-InStep i c found k =
        let (front, last, e, same, le) = k.spawned in
        let it : last ≡ c =
          get_elem?-last front last i c le
            (ap (λ (l : List ClientItem). get_elem? l i) (sym e) ∙ found) in
        record {
          shows =
              k.shows
              ∙ ap (λ (l : List ClientItem). map (shown os) (without l a.server.clients ++ []))
                  (sym (clients_at-append is_gone ts (fresh c ∷ []) ∙ append-nil _));
          ports = k.ports;
          few = k.few;
          spawned =
              rw (clients_at-append is_served ts (fresh c ∷ []), e, it)
                (SamePorts-enter (clients_at is_served ts) front c same);
        }

  -- A call that starts no thread.
  stay :
      {n : ℕ} (a b : App lc) (p : Place) (ts : List Thread)
      → b.client_threads ≡ a.client_threads
      → InStep os n (process b p ts)
      → InStep os n (process b p (ts ++ started a b))
  stay {n} a b p ts e k =
      let same : ts ++ started a b ≡ ts =
        ap (λ (l : List ClientItem). ts ++ map fresh (drop (length a.client_threads) l)) e
        ∙ started-none a ts in
      subst (λ (l : List Thread). InStep os n (process b p l)) (sym same) k

  -- A call that starts no thread and changes neither the rows nor the vector, between two calls around
  -- which no client is on its way.
  pass :
      {n : ℕ} (a b : App lc) (p q : Place) (ts : List Thread)
      → b.client_threads ≡ a.client_threads
      → b.client_list ≡ a.client_list
      → b.server ≡ a.server
      → coming os q ≡ coming os p
      → ((cs us : List ClientItem) → Spawned p cs us → Spawned q cs us)
      → InStep os n (process a p ts)
      → InStep os (suc n) (process b q (ts ++ started a b))
  pass a b p q ts started_same list_same server_same come spawn k = stay a b q ts started_same (
      InStep-frame os {s = process a p ts} {r = process b q ts}
        (ap (λ (c : lc.Ctrl). map entry (lc.rows c)) list_same)
        (ap (λ (t : TcpServer). t.clients) server_same) refl refl come spawn (omega arith) k)

  get-OnSome :
      {n : ℕ} (i : ℕ) (a : App lc) (ts : List Thread)
      → InStep os n (process a (getting i) ts)
      → OnSome (InStep os (suc n)) (step os accept_call (process a (getting i) ts))
  unfolding step advance spawn_thread get_client
  get-OnSome {n} i a ts k = elim (Option-cases (get_elem? a.server.clients i)) [
    | inl missing ↦ rw missing tt
    | inr (c, found) ↦
        let b = record a { client_threads = a.client_threads ++ c ∷ [] } in
        let one : ts ++ started a b ≡ ts ++ fresh c ∷ [] =
          ap (λ (l : List ClientItem). ts ++ map fresh l) (drop-length a.client_threads (c ∷ [])) in
        rw found (
          subst (λ (l : List Thread). InStep os (suc n) (process b at_head l)) (sym one)
            (InStep-suc os (get-InStep a ts i c found k)))
  ]

  pub accept-InStep :
      {n : ℕ} (a : App lc) (p : Place) (ts : List Thread)
      → Documented os
      → n < 2 ^ 32 - 1
      → InStep os n (process a p ts)
      → OnSome (InStep os (suc n)) (step os accept_call (process a p ts))
  unfolding step advance
  accept-InStep {n} a at_head ts d lt k =
      if_ind (λ (p : Place). InStep os (suc n) (process a p (ts ++ started a a))) a.server.run
        (λ _. pass a a at_head selecting ts refl refl refl refl (λ cs us h. h) k)
        (λ _. pass a a at_head returned ts refl refl refl refl (λ cs us h. h) k)
  accept-InStep {n} a selecting ts d lt k =
      let (ready, h) = select_socket os a.server.lis_sock 100 read a.log in
      let b = with_log a h in
      if_ind (λ (p : Place). InStep os (suc n) (process b p (ts ++ started a b))) ready
        (λ _. pass a b selecting accepting ts refl refl refl refl (λ cs us h. h) k)
        (λ _. pass a b selecting at_head ts refl refl refl refl (λ cs us h. h) k)
  accept-InStep {n} a accepting ts d lt k =
      let r = os.accept_ret a.log a.server.lis_sock in
      let b = with_log a (accept a.server.lis_sock ∷ a.log) in
      if_ind (λ (p : Place). InStep os (suc n) (process b p (ts ++ started a b)))
        (r.sock == os.invalid_socket)
        (λ _. pass a b accepting at_head ts refl refl refl refl (λ cs us h. h) k)
        (λ _. pass a b accepting (inserting r.addr r.sock) ts refl refl refl refl (λ cs us h. h) k)
  accept-InStep a (inserting addr sock) ts d lt k =
      stay a (insert_client os lc addr sock a) (notifying addr sock) ts
        (unfold insert_client in refl) (InStep-suc os (insert-InStep a ts addr sock d lt k))
  accept-InStep a (notifying addr sock) ts d lt k =
      unfold notify_ui in
      pass a (notify_ui os lc (login_message os addr) a) (notifying addr sock) (adding addr sock) ts
        refl refl refl refl (λ cs us h. h) k
  accept-InStep a (adding addr sock) ts d lt k =
      stay a (with_server a (add_client os addr sock a.server)) counting ts refl
        (add-InStep a ts addr sock d k)
  accept-InStep a counting ts d lt k = stay a a _ ts refl (InStep-suc os (count-InStep a ts lt k))
  accept-InStep a (getting i) ts d lt k = get-OnSome i a ts k
  accept-InStep a returned ts d lt k =
      pass a a returned returned ts refl refl refl refl (λ cs us h. h) k
