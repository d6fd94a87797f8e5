-- ===== src/Server/System/InSync.antt =====
-- The list of clients shown agrees with TcpServer's vector of clients, as long as the server is not
-- closed (InsertClient, AddClient, RemoveClient and DeleteClient of winSockServer/).
use open_chat.Base.{
  ℕ, suc, ◌-◌, ◌≤◌, ◌<◌, ◌^◌, ◌≡◌, refl, sym, ap, ap₂, ◌∙◌, List, [], ◌∷◌, ◌++◌, map, map-append,
  length, length-append, length-map, erase_first, insert_at-length, All, All-append, ◌==◌,
  Bool-cases, inl, inr, arith,
}
use open_chat.Text.{Text, format_d, format_ld}
use open_chat.Text.Decimal.{ttoi-format_d}
use open_chat.ClientItem.{ClientItem}
use open_chat.Platform.{Winsock, SockAddr}
use open_chat.Platform.ListCtrl.{ListCtrl, Row}
use open_chat.Server.State.{App}
use open_chat.Server.Threads.Effects.{
  listed, clients-listed, rows-listed, clients-disconnect, rows-disconnect,
}
use open_chat.Server.Tcp.{delete_client, client_num, item_of}
use open_chat.Server.ClientView.Rows.{row_of, has_port}
use open_chat.Server.Threads.{disconnect}

-- The texts of a row.
abbrev pub entry : Row → Text × Text × Text
entry r = (r.port_text, r.ip_text, r.socket_text)

-- The texts that a client is listed under.
abbrev pub shown : Winsock → ClientItem → Text × Text × Text
shown os c = (format_d c.c_port, os.widen c.c_addr, format_ld c.c_socket)

-- What Winsock documents: a port has 16 bits, and both address formats are the dotted one.
pub record Documented (os : Winsock) : Type 0 where
  pub ntohs-lt : (n : ℕ) → os.ntohs n < 65536
  pub ntop-eq-ntoa : (n : ℕ) → os.inet_ntop n ≡ os.inet_ntoa n

abbrev pub HasPort : ClientItem → Type 0
HasPort c = c.c_port < 65536

pub delete_client-HasPort :
    (port : ℕ) (cs : List ClientItem) → All HasPort cs → All HasPort (delete_client port cs)
unfolding delete_client
delete_client-HasPort port [] h = tt
delete_client-HasPort port (c ∷ cs) h = ground (arith, delete_client-HasPort port cs h.1)

pub length-delete_client-le :
    (port : ℕ) (cs : List ClientItem) → length (delete_client port cs) ≤ length cs
unfolding delete_client
length-delete_client-le port [] = omega arith
length-delete_client-le port (c ∷ cs) = ground (arith, length-delete_client-le port cs)

pub cons-eq {ℓ} : {A : Type ℓ} {x y : A} {xs ys : List A} → x ∷ xs ≡ y ∷ ys → (x ≡ y) × (xs ≡ ys)
cons-eq e = (cc, cc)

module _ (os : Winsock) where
  -- The same test finds the client in the vector and its row in the list.
  has_port-shown :
      (port : ℕ) (r : Row) (c : ClientItem)
      → HasPort c
      → entry r ≡ shown os c
      → has_port port r ≡ (c.c_port == port)
  has_port-shown port r c h e =
      let text : r.port_text ≡ format_d c.c_port = ap (λ (t : Text × Text × Text). t.0) e in
      rw (text, ttoi-format_d c.c_port (omega arith))

  pub erase_first-delete_client :
      (port : ℕ) (rs : List Row) (cs : List ClientItem)
      → All HasPort cs
      → map entry rs ≡ map (shown os) cs
      → map entry (erase_first (has_port port) rs) ≡ map (shown os) (delete_client port cs)
  unfolding delete_client
  erase_first-delete_client port [] [] h e = refl
  erase_first-delete_client port [] (c ∷ cs) h e = absurd (cc)
  erase_first-delete_client port (r ∷ rs) [] h e = absurd (cc)
  erase_first-delete_client port (r ∷ rs) (c ∷ cs) h e =
      let (here, there) = cons-eq e in
      let same : has_port port r ≡ (c.c_port == port) = has_port-shown port r c h.0 here in
      let rest : map entry (erase_first (has_port port) rs)
          ≡ map (shown os) (delete_client port cs) =
        erase_first-delete_client port rs cs h.1 there in
      elim (Bool-cases (c.c_port == port)) [
        | inl hit ↦ rw (same, hit) there
        | inr miss ↦ rw (same, miss) (ap₂ ◌∷◌ here rest)
      ]

  -- The row of a new connection has the texts that its client is listed under.
  pub entry-row_of :
      Documented os
      → (addr : SockAddr) (sock : ℕ) → entry (row_of os addr sock) ≡ shown os (item_of os addr sock)
  entry-row_of d addr sock =
      ap (λ (t : Text). (format_d (os.ntohs addr.sin_port), os.widen t, format_ld sock))
        (d.ntop-eq-ntoa addr.sin_addr)

  pub record InSync {lc : ListCtrl} (n : ℕ) (a : App lc) : Type 0 where
    pub shows : map entry (lc.rows a.client_list) ≡ map (shown os) a.server.clients
    pub ports : All HasPort a.server.clients
    pub few : length a.server.clients ≤ n

  module _ {lc : ListCtrl} where
    pub InSync-suc : {n : ℕ} {a : App lc} → InSync n a → InSync (suc n) a
    InSync-suc s = record { shows = s.shows; ports = s.ports; few = omega arith }

    -- A step that leaves the vector and the list alone.
    pub InSync-frame :
        {n : ℕ} {a b : App lc}
        → b.client_list ≡ a.client_list
        → b.server.clients ≡ a.server.clients
        → InSync n a
        → InSync n b
    InSync-frame {n} {a} {b} l c s = record {
      shows = rw (l, c) s.shows;
      ports = rw c s.ports;
      few = rw c s.few;
    }

    pub disconnect-InSync :
        {n : ℕ} (c : ClientItem) (a : App lc) → InSync n a → InSync n (disconnect os c a)
    disconnect-InSync {n} c a s = record {
      shows =
          rw (rows-disconnect os c a, clients-disconnect os c a)
            (erase_first-delete_client c.c_port (lc.rows a.client_list) a.server.clients s.ports
              s.shows);
      ports =
          rw (clients-disconnect os c a) (delete_client-HasPort c.c_port a.server.clients s.ports);
      few =
          rw (clients-disconnect os c a)
            (omega (arith, s.few, length-delete_client-le c.c_port a.server.clients));
    }

    pub length-rows :
        {n : ℕ} {a : App lc} → InSync n a → length (lc.rows a.client_list) ≡ length a.server.clients
    length-rows {n} {a} s = omega (
      arith,
      ap length s.shows,
      length-map (lc.rows a.client_list) entry,
      length-map a.server.clients (shown os),
    )

    pub listed-InSync :
        {n : ℕ} (d : Documented os) (addr : SockAddr) (sock : ℕ) (a : App lc)
        → n < 2 ^ 32 - 1
        → InSync n a
        → InSync (suc n) (listed os addr sock a)
    listed-InSync {n} d addr sock a lt s = record {
      shows =
          rw (rows-listed os addr sock a, clients-listed os addr sock a, at)
            (rw (insert_at-length (lc.rows a.client_list) (row_of os addr sock)) (
              map-append entry (lc.rows a.client_list) (row_of os addr sock ∷ [])
              ∙ ap₂ ◌++◌ s.shows
                  (ap (λ (t : Text × Text × Text). t ∷ []) (entry-row_of d addr sock))
              ∙ sym (map-append (shown os) a.server.clients (item_of os addr sock ∷ []))));
      ports = rw (clients-listed os addr sock a) (
          All-append HasPort a.server.clients (item_of os addr sock ∷ []) s.ports
            (d.ntohs-lt addr.sin_port, tt));
      few =
          rw (clients-listed os addr sock a)
            (omega (arith, length-append a.server.clients (item_of os addr sock ∷ []), s.few));
    }
      where
        at : client_num a.server ≡ length (lc.rows a.client_list)
        at = unfold client_num in omega (arith, length-rows s, s.few)
