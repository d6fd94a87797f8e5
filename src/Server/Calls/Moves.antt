-- ===== src/Server/Calls/Moves.antt =====
-- What the calls of a client thread keep (ClientFunc of winSockServer/src/TcpServer.cpp).
use open_chat.Base.{
  ℕ, ◌+◌, ◌≤◌, ◌<◌, ◌≡◌, refl, sym, ap, ◌∙◌, true, false, List, [], ◌∷◌, ◌++◌, map, length,
  length-append, modify, All-append, arith, SplitAt, ◌⊎◌, inl, inr, ◌==◌, if◌then◌else◌,
}
use open_chat.ClientItem.{ClientItem}
use open_chat.Platform.{Winsock}
use open_chat.Platform.ListCtrl.{ListCtrl}
use open_chat.Server.State.{with_server}
use open_chat.Server.Tcp.{delete_client}
use open_chat.Server.Tcp.Ports.{count_port, count_port-delete_client, SamePorts}
use open_chat.Server.ClientView.{remove_client}
use open_chat.Server.ClientView.Rows.{rows-remove_client}
use open_chat.Server.Threads.Steps.{
  Place, at_head, selecting, accepting, inserting, notifying, adding, counting, getting, returned,
}
use open_chat.Server.System.InSync.{
  entry, shown, Documented, HasPort, delete_client-HasPort, length-delete_client-le,
  erase_first-delete_client,
}
use open_chat.Server.Calls.{deleting, leaving, removing, Thread, Process}
use open_chat.Server.Calls.Leaving.{
  without, Within, delete_client-append, count_port-without, without-HasPort,
}
use open_chat.Server.Calls.Standing.{
  is_gone, is_served, clients_at, at_stage, gone-Within-served, without-removed, without-deleted,
  clients_at-moved, served-deleted, gone-lt-served_at,
}
use open_chat.Server.Calls.InStep.{
  coming, Spawned, Followed, Spawned-Within, coming-HasPort, InStep,
}

-- A served client leaves the vector and the threads.
Followed-leave :
    (c : ClientItem) (cs ts rest : List ClientItem) (most : ℕ)
    → ((q : ℕ) → count_port q ts ≡ (if c.c_port == q then 1 else 0) + count_port q rest)
    → Followed cs ts most
    → (n : ℕ) → (length (delete_client c.c_port cs) ≤ n) ⊎ (most ≤ n)
    → Followed (delete_client c.c_port cs) rest n
Followed-leave c cs ts rest most own (front, last, e, same, le) n bound =
    let p = c.c_port in
    let there : 0 < count_port p front = ground (arith, own p, same p) in
    let split : delete_client p cs ≡ delete_client p front ++ last ∷ [] =
      ap (delete_client p) e ∙ delete_client-append p front (last ∷ []) there in
    (
      delete_client p front,
      last,
      split,
      λ q. omega (arith, own q, same q, count_port-delete_client p q front there),
      ground (
        arith,
        bound,
        le,
        length-delete_client-le p front,
        ap length split,
        length-append (delete_client p front) (last ∷ []),
      ),
    )

SamePorts-away :
    (c : ClientItem) (cs ts rest : List ClientItem)
    → ((q : ℕ) → count_port q ts ≡ (if c.c_port == q then 1 else 0) + count_port q rest)
    → SamePorts ts cs
    → SamePorts rest (delete_client c.c_port cs)
SamePorts-away c cs ts rest own same q =
    let p = c.c_port in
    let there : 0 < count_port p cs = ground (arith, own p, same p) in
    omega (arith, own q, same q, count_port-delete_client p q cs there)

Spawned-leave :
    (place : Place) (c : ClientItem) (cs ts rest : List ClientItem)
    → ((q : ℕ) → count_port q ts ≡ (if c.c_port == q then 1 else 0) + count_port q rest)
    → Spawned place cs ts
    → Spawned place (delete_client c.c_port cs) rest
Spawned-leave counting c cs ts rest own h =
    Followed-leave c cs ts rest (length cs) own h _ (inl (omega arith))
Spawned-leave (getting i) c cs ts rest own h =
    Followed-leave c cs ts rest i own h i (inr (omega arith))
Spawned-leave at_head c cs ts rest own h = SamePorts-away c cs ts rest own h
Spawned-leave selecting c cs ts rest own h = SamePorts-away c cs ts rest own h
Spawned-leave accepting c cs ts rest own h = SamePorts-away c cs ts rest own h
Spawned-leave (inserting addr sock) c cs ts rest own h = SamePorts-away c cs ts rest own h
Spawned-leave (notifying addr sock) c cs ts rest own h = SamePorts-away c cs ts rest own h
Spawned-leave (adding addr sock) c cs ts rest own h = SamePorts-away c cs ts rest own h
Spawned-leave returned c cs ts rest own h = SamePorts-away c cs ts rest own h

module _ (os : Winsock) {lc : ListCtrl} where
  module _ {n : ℕ} (s : Process lc) {i : ℕ} {t : Thread} (at : SplitAt s.threads i t) where
    -- RemoveClient takes the row of a client out that is still in the vector.
    pub remove-InStep :
        Documented os
        → t.stage ≡ removing
        → InStep os n s
        → InStep os n (record s {
          app = remove_client os lc t.client s.app;
          threads = modify s.threads i (at_stage deleting);
        })
    unfolding remove_client
    remove-InStep d stage k =
        let cs = s.app.server.clients in
        let gone = clients_at is_gone s.threads in
        let here : is_served t.stage ≡ true = rw stage refl in
        let row : is_gone t.stage ≡ false = rw stage refl in
        let inside : Within gone cs = λ q.
          omega (arith, gone-Within-served s.threads q, Spawned-Within s.place cs _ k.spawned q) in
        let own : 0 < count_port t.client.c_port (without gone cs) = omega (
          arith,
          count_port-without gone cs inside t.client.c_port,
          Spawned-Within s.place cs _ k.spawned t.client.c_port,
          gone-lt-served_at at here row,
        ) in
        record {
          shows =
              ap (map entry) (rows-remove_client os lc t.client s.app)
              ∙ erase_first-delete_client os t.client.c_port (lc.rows s.app.client_list)
                  (without gone cs ++ coming os s.place)
                  (All-append HasPort (without gone cs) (coming os s.place)
                    (without-HasPort gone cs k.ports) (coming-HasPort os d s.place))
                  k.shows
              ∙ ap (map (shown os)) (
                  delete_client-append t.client.c_port (without gone cs) (coming os s.place) own
                  ∙ ap (λ (l : List ClientItem). l ++ coming os s.place)
                      (sym (without-removed at cs row)));
          ports = k.ports;
          few = k.few;
          spawned = rw (clients_at-moved at is_served deleting (sym here)) k.spawned;
        }

    -- DeleteClient takes it out of the vector, too.
    pub delete-InStep :
        t.stage ≡ deleting
        → InStep os n s
        → InStep os n (record s {
          app = with_server s.app (record (s.app.server) {
            clients = delete_client t.client.c_port s.app.server.clients;
          });
          threads = modify s.threads i (at_stage leaving);
        })
    delete-InStep stage k =
        let cs = s.app.server.clients in
        record {
          shows =
              k.shows
              ∙ ap (λ (l : List ClientItem). map (shown os) (l ++ coming os s.place))
                  (without-deleted at cs (rw stage refl));
          ports = delete_client-HasPort t.client.c_port cs k.ports;
          few = omega (arith, k.few, length-delete_client-le t.client.c_port cs);
          spawned =
              Spawned-leave s.place t.client cs _ _ (λ q. served-deleted at q (rw stage refl))
                k.spawned;
        }
