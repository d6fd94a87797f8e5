-- ===== src/Server/Tcp/Registry.antt =====
-- TcpServer's vector as what it stands for: at most one client for each port
-- (winSockServer/src/TcpServer.cpp and winSockServer/include/TcpServer.h).
use mathlib.Core.Path.{fun_ext}
use open_chat.Base.{
  ℕ, ◌≡◌, ◌≢◌, refl, sym, ap, ◌∙◌, List, [], ◌∷◌, ◌++◌, Option, none, some, All-append, arith, ◌==◌,
  if◌then◌else◌, if_ind,
}
use open_chat.ClientItem.{ClientItem}
use open_chat.Platform.{Winsock, SockAddr}
use open_chat.Server.State.{TcpServer}
use open_chat.Server.Tcp.{add_client, delete_client, item_of}
use open_chat.Server.Tcp.Lifecycle.{OtherPorts}

-- The client that the vector holds for a port.
abbrev pub find_client : List ClientItem → ℕ → Option ClientItem
find_client [] port = none
find_client (c ∷ cs) port = if c.c_port == port then some c else find_client cs port

-- No port stands twice.
abbrev pub IsDistinct : List ClientItem → Type 0
IsDistinct [] = Unit
IsDistinct (c ∷ cs) = OtherPorts c.c_port cs × IsDistinct cs

-- What SelectFunc and ClientFunc do to the vector.
pub data Change : Type 0 where
  enters : SockAddr → (sock : ℕ) → Change
  leaves : (port : ℕ) → Change

-- The abstract server: a partial function from ports to clients, changed at one port.
abbrev pub Registry : Type 0
Registry = ℕ → Option ClientItem

abbrev pub update : Registry → ℕ → Option ClientItem → Registry
update r port entry q = if port == q then entry else r q

module _ (os : Winsock) where
  unfoldable pub change : Change → TcpServer → TcpServer
  change (enters addr sock) s = add_client os addr sock s
  change (leaves port) s = record s { clients = delete_client port s.clients }

  pub changes : List Change → TcpServer → TcpServer
  changes [] s = s
  changes (c ∷ cs) s = changes cs (change c s)

  abbrev pub change_registry : Change → Registry → Registry
  change_registry (enters addr sock) r =
      update r (os.ntohs addr.sin_port) (some (item_of os addr sock))
  change_registry (leaves port) r = update r port none

  abbrev pub change_registries : List Change → Registry → Registry
  change_registries [] r = r
  change_registries (c ∷ cs) r = change_registries cs (change_registry c r)

  -- A client enters at a port that no client has.
  abbrev pub Free : Change → Registry → Type 0
  Free (enters addr sock) r = r (os.ntohs addr.sin_port) ≡ none
  Free (leaves port) r = Unit

  abbrev pub AllFree : List Change → Registry → Type 0
  AllFree [] r = Unit
  AllFree (c ∷ cs) r = Free c r × AllFree cs (change_registry c r)

find_client-none :
    (cs : List ClientItem) (port : ℕ) → find_client cs port ≡ none → OtherPorts port cs
find_client-none [] port e = tt
find_client-none (c ∷ cs) port e = ground (arith, find_client-none cs port)

find_client-OtherPorts :
    (cs : List ClientItem) (port : ℕ) → OtherPorts port cs → find_client cs port ≡ none
find_client-OtherPorts [] port h = refl
find_client-OtherPorts (c ∷ cs) port h = ground (arith, h.0, find_client-OtherPorts cs port h.1)

find_client-append :
    (cs : List ClientItem) (c : ClientItem) (q : ℕ)
    → OtherPorts c.c_port cs
    → find_client (cs ++ c ∷ []) q ≡ (if c.c_port == q then some c else find_client cs q)
find_client-append [] c q h = refl
find_client-append (d ∷ cs) c q h = ground (arith, h.0, find_client-append cs c q h.1)

find_client-delete_client :
    (cs : List ClientItem) (port q : ℕ)
    → IsDistinct cs
    → find_client (delete_client port cs) q ≡ (if port == q then none else find_client cs q)
unfolding delete_client
find_client-delete_client [] port q h = ground arith
find_client-delete_client (c ∷ cs) port q h =
    ground (arith, find_client-OtherPorts cs c.c_port h.0, find_client-delete_client cs port q h.1)

OtherPorts-delete_client :
    (cs : List ClientItem) (p port : ℕ) → OtherPorts p cs → OtherPorts p (delete_client port cs)
unfolding delete_client
OtherPorts-delete_client [] p port h = tt
OtherPorts-delete_client (c ∷ cs) p port h =
    if_ind (OtherPorts p) (c.c_port == port) (λ _. h.1)
      (λ _. (h.0, OtherPorts-delete_client cs p port h.1))

delete_client-IsDistinct :
    (cs : List ClientItem) (port : ℕ) → IsDistinct cs → IsDistinct (delete_client port cs)
unfolding delete_client
delete_client-IsDistinct [] port h = tt
delete_client-IsDistinct (c ∷ cs) port h =
    if_ind IsDistinct (c.c_port == port) (λ _. h.1)
      (λ _. (OtherPorts-delete_client cs c.c_port port h.0, delete_client-IsDistinct cs port h.1))

append-IsDistinct :
    (cs : List ClientItem) (c : ClientItem)
    → OtherPorts c.c_port cs
    → IsDistinct cs
    → IsDistinct (cs ++ c ∷ [])
append-IsDistinct [] c o h = (tt, tt)
append-IsDistinct (d ∷ cs) c o h = (
  All-append (λ e. e.c_port ≢ d.c_port) cs (c ∷ []) h.0 ((λ e. o.0 (sym e)), tt),
  append-IsDistinct cs c o.1 h.1,
)

module _ (os : Winsock) where
  -- One change keeps the ports apart and is the change of the abstract server.
  abbrev Refines : Change → TcpServer → Type 0
  Refines c s =
      IsDistinct (change os c s).clients
      × (find_client (change os c s).clients ≡ change_registry os c (find_client s.clients))

  change-Refines :
      (c : Change) (s : TcpServer)
      → IsDistinct s.clients
      → Free os c (find_client s.clients)
      → Refines c s
  unfolding change add_client
  change-Refines (enters addr sock) s h free =
      let other = find_client-none s.clients (os.ntohs addr.sin_port) free in
      (
        append-IsDistinct s.clients (item_of os addr sock) other h,
        fun_ext (λ q. find_client-append s.clients (item_of os addr sock) q other),
      )
  change-Refines (leaves port) s h free = (
    delete_client-IsDistinct s.clients port h,
    fun_ext (λ q. find_client-delete_client s.clients port q h),
  )

  -- Over any sequence of AddClient and DeleteClient in which a client enters only at a port that no client
  -- has, from a vector in which no port stands twice: no port ever stands twice, and the vector holds
  -- for each port what the abstract server, a function from ports to clients, holds after the same
  -- changes.
  pub changes_refine :
      (cs : List Change) (s : TcpServer)
      → IsDistinct s.clients
      → AllFree os cs (find_client s.clients)
      → IsDistinct (changes os cs s).clients
        × (find_client (changes os cs s).clients ≡ change_registries os cs (find_client s.clients))
  unfolding changes
  changes_refine [] s h free = (h, refl)
  changes_refine (c ∷ cs) s h free =
      let (d, e) = change-Refines c s h free.0 in
      let (k, r) = changes_refine cs (change os c s) d (rw e free.1) in
      (k, r ∙ ap (change_registries os cs) e)
