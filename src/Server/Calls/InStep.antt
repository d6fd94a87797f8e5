-- ===== src/Server/Calls/InStep.antt =====
-- What the list of clients and the threads have to do with TcpServer's vector between any two calls
-- (winSockServer/).
use open_chat.Base.{
  ℕ, suc, ◌≤◌, ◌≡◌, refl, sym, ap, ◌∙◌, List, [], ◌∷◌, ◌++◌, map, append-nil, length, All, arith,
}
use open_chat.ClientItem.{ClientItem}
use open_chat.Platform.{Winsock}
use open_chat.Platform.ListCtrl.{ListCtrl}
use open_chat.Server.Tcp.{item_of}
use open_chat.Server.Tcp.Ports.{count_port, count_port-append, SamePorts}
use open_chat.Server.Threads.Steps.{
  Place, at_head, selecting, accepting, inserting, notifying, adding, counting, getting, returned,
}
use open_chat.Server.System.InSync.{entry, shown, Documented, HasPort}
use open_chat.Server.Calls.{Process}
use open_chat.Server.Calls.Leaving.{without, Within}
use open_chat.Server.Calls.Standing.{is_gone, is_served, clients_at}

-- The client whose row is there and which is not yet in the vector.
abbrev pub coming : Winsock → Place → List ClientItem
coming os (notifying addr sock) = item_of os addr sock ∷ []
coming os (adding addr sock) = item_of os addr sock ∷ []
coming os other = []

-- The vector is that of the clients that the threads serve, with one more at its end that gets its
-- thread next.
abbrev pub Followed : List ClientItem → List ClientItem → ℕ → Type 0
Followed cs ts most =
    (front : List ClientItem) × (last : ClientItem) × (cs ≡ front ++ last ∷ [])
    × SamePorts ts front
    × (length front ≤ most)

-- How the vector and the clients that the threads serve go together, by the place of the accept
-- thread.
abbrev pub Spawned : Place → List ClientItem → List ClientItem → Type 0
Spawned counting cs ts = Followed cs ts (length cs)
Spawned (getting i) cs ts = Followed cs ts i
Spawned other cs ts = SamePorts ts cs

-- The part of the vector that the threads serve, and the rest.
pub Spawned-front :
    (p : Place) (cs ts : List ClientItem)
    → Spawned p cs ts
    → (front : List ClientItem) × (rest : List ClientItem) × (cs ≡ front ++ rest)
      × SamePorts ts front
Spawned-front counting cs ts h = (h.0, h.1 ∷ [], h.2, h.3)
Spawned-front (getting i) cs ts h = (h.0, h.1 ∷ [], h.2, h.3)
Spawned-front at_head cs ts h = (cs, [], sym (append-nil cs), h)
Spawned-front selecting cs ts h = (cs, [], sym (append-nil cs), h)
Spawned-front accepting cs ts h = (cs, [], sym (append-nil cs), h)
Spawned-front (inserting addr sock) cs ts h = (cs, [], sym (append-nil cs), h)
Spawned-front (notifying addr sock) cs ts h = (cs, [], sym (append-nil cs), h)
Spawned-front (adding addr sock) cs ts h = (cs, [], sym (append-nil cs), h)
Spawned-front returned cs ts h = (cs, [], sym (append-nil cs), h)

pub Spawned-Within : (p : Place) (cs ts : List ClientItem) → Spawned p cs ts → Within ts cs
Spawned-Within p cs ts h q =
    let (front, rest, e, same) = Spawned-front p cs ts h in
    omega (arith, same q, ap (count_port q) e, count_port-append q front rest)

pub coming-HasPort : (os : Winsock) → Documented os → (p : Place) → All HasPort (coming os p)
coming-HasPort os d (notifying addr sock) = (d.ntohs-lt addr.sin_port, tt)
coming-HasPort os d (adding addr sock) = (d.ntohs-lt addr.sin_port, tt)
coming-HasPort os d counting = tt
coming-HasPort os d (getting i) = tt
coming-HasPort os d at_head = tt
coming-HasPort os d selecting = tt
coming-HasPort os d accepting = tt
coming-HasPort os d (inserting addr sock) = tt
coming-HasPort os d returned = tt

-- The rows show the vector in its order, without the clients whose thread has removed the row and not
-- yet the client, and with the one whose row is there before it is in the vector.
pub record InStep (os : Winsock) {lc : ListCtrl} (n : ℕ) (s : Process lc) : Type 0 where
  pub shows :
      map entry (lc.rows s.app.client_list)
      ≡ map
          (shown os)
          (without (clients_at is_gone s.threads) s.app.server.clients ++ coming os s.place)
  pub ports : All HasPort s.app.server.clients
  pub few : length s.app.server.clients ≤ n
  pub spawned : Spawned s.place s.app.server.clients (clients_at is_served s.threads)

module _ (os : Winsock) {lc : ListCtrl} where
  -- A step that leaves the vector, the texts of the rows and the standing of the clients alone.
  pub InStep-frame :
      {n m : ℕ} {s r : Process lc}
      → map entry (lc.rows r.app.client_list) ≡ map entry (lc.rows s.app.client_list)
      → r.app.server.clients ≡ s.app.server.clients
      → clients_at is_gone r.threads ≡ clients_at is_gone s.threads
      → clients_at is_served r.threads ≡ clients_at is_served s.threads
      → coming os r.place ≡ coming os s.place
      → ((cs ts : List ClientItem) → Spawned s.place cs ts → Spawned r.place cs ts)
      → n ≤ m
      → InStep os n s
      → InStep os m r
  InStep-frame {n} {m} {s} {r} rows same gone served come spawn le k = record {
    shows = rows ∙ k.shows ∙ rw (same, gone, come);
    ports = rw same k.ports;
    few = omega (arith, k.few, ap length same);
    spawned = rw (same, served) (spawn _ _ k.spawned);
  }

  pub InStep-suc : {n : ℕ} {s : Process lc} → InStep os n s → InStep os (suc n) s
  InStep-suc {s} k = InStep-frame {s = s} refl refl refl refl refl (λ cs ts h. h) (omega arith) k
