-- ===== src/Server/Tcp/Ports.antt =====
-- The ports of TcpServer's vector, counted (winSockServer/src/TcpServer.cpp).
use mathlib.Core.Quot.{Quot}
use open_chat.Base.{
  ℕ, zero, suc, ◌+◌, ◌<◌, ◌≡◌, ap, List, [], ◌∷◌, ◌++◌, get_elem?, erase_at, some, ◌==◌, arith,
  if◌then◌else◌,
}
use open_chat.ClientItem.{ClientItem}
use open_chat.Server.Tcp.{delete_client}

-- How many of the clients have the port.
abbrev pub count_port : ℕ → List ClientItem → ℕ
count_port p [] = 0
count_port p (c ∷ cs) = (if c.c_port == p then 1 else 0) + count_port p cs

-- Two lists of clients have the same ports, each as often.
abbrev pub SamePorts : List ClientItem → List ClientItem → Type 0
SamePorts xs ys = (p : ℕ) → count_port p xs ≡ count_port p ys

-- The ports of a list of clients, up to their order.
abbrev pub Ports : Type 0
Ports = Quot SamePorts

abbrev pub ports_of : List ClientItem → Ports
ports_of = Quot.mk

pub count_port-append :
    (p : ℕ) (xs ys : List ClientItem) → count_port p (xs ++ ys) ≡ count_port p xs + count_port p ys
count_port-append p [] ys = omega arith
count_port-append p (x ∷ xs) ys = omega (arith, count_port-append p xs ys)

pub count_port-delete_client :
    (q p : ℕ) (cs : List ClientItem)
    → 0 < count_port q cs
    → count_port p cs ≡ (if q == p then 1 else 0) + count_port p (delete_client q cs)
unfolding delete_client
count_port-delete_client q p [] h = absurd (omega arith)
count_port-delete_client q p (c ∷ cs) h = ground (arith, count_port-delete_client q p cs)

count_port-erase_at :
    (p : ℕ) (cs : List ClientItem) (i : ℕ) (c : ClientItem)
    → get_elem? cs i ≡ some c
    → count_port p cs ≡ (if c.c_port == p then 1 else 0) + count_port p (erase_at cs i)
count_port-erase_at p [] i c e = absurd (cc)
count_port-erase_at p (x ∷ cs) zero c e =
    let same : x ≡ c = cc in
    ap (λ (d : ClientItem). (if d.c_port == p then 1 else 0) + count_port p cs) same
count_port-erase_at p (x ∷ cs) (suc i) c e = omega (arith, count_port-erase_at p cs i c e)

-- A thread that leaves takes its port out of both lists.
pub SamePorts-leave :
    (ts cs : List ClientItem) (i : ℕ) (c : ClientItem)
    → get_elem? ts i ≡ some c
    → SamePorts ts cs
    → SamePorts (erase_at ts i) (delete_client c.c_port cs)
SamePorts-leave ts cs i c e h p =
    let own : count_port c.c_port ts ≡ 1 + count_port c.c_port (erase_at ts i) =
      ground (arith, count_port-erase_at c.c_port ts i c e) in
    omega (
      arith,
      h p,
      h c.c_port,
      own,
      count_port-erase_at p ts i c e,
      count_port-delete_client c.c_port p cs (omega (arith, h c.c_port, own)),
    )

pub SamePorts-enter :
    (ts cs : List ClientItem) (c : ClientItem)
    → SamePorts ts cs
    → SamePorts (ts ++ c ∷ []) (cs ++ c ∷ [])
SamePorts-enter ts cs c h p =
    omega (arith, h p, count_port-append p ts (c ∷ []), count_port-append p cs (c ∷ []))
