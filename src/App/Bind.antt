-- ===== src/App/Bind.antt =====
-- `Protocol::bind` of src/app/protocol.rs, over the models of its parts, with what it holds: a value
-- that goes out of scope on an error is dropped.
use bark_esp.Base.{ℕ, ◌≡◌, ◌↔◌, Option, Bool, true, false, Result, ok, err, if◌then◌else◌, arith}
use bark_esp.Extern.EventGroup.{EventGroup}
use bark_esp.Extern.RtosQueue.{RtosQueue}
use bark_esp.Sync.EventGroup.{Group}
use bark_esp.Sync.Queue.{AllocQueueError, Shared, channel}
use bark_esp.Platform.Net.{IpAddr, Ipv4Addr, NetError, netif, multicast_group}
use bark_esp.Platform.Udp.Socket.{Udp}
use bark_esp.Platform.Udp.Socket

pub data BindError (E : Type 0) : Type 0 where
  new_socket : NetError E → BindError E
  allocate_packet_queue : AllocQueueError E → BindError E
  set_on_receive_callback : E → BindError E
  bind_socket : NetError E → BindError E
  join_multicast_group : NetError E → BindError E

-- What is held: the socket, with the callback if one is set, and the two ends of the channel.
pub record Held : Type 0 where
  pub socket : Bool
  pub callback : Bool
  pub packet_tx : Bool
  pub packet_rx : Bool

abbrev unspecified : Ipv4Addr
unspecified = record { octet0 = 0; octet1 = 0; octet2 = 0; octet3 = 0 }

abbrev pub nothing : Held
nothing = record { socket = false; callback = false; packet_tx = false; packet_rx = false }

-- The drop of the socket frees its callback, and that drops the sender that moved into it.
unfoldable pub drop_socket : Held → Held
drop_socket h = record h {
  socket = false;
  callback = false;
  packet_tx = if h.callback then false else h.packet_tx;
}

module _ (G : EventGroup) (E T : Type 0) (Q : RtosQueue T) where
  -- The calls of the libraries, as they turn out.
  pub record Calls : Type 0 where
    pub udp_new_ip_type : Option ℕ
    pub alloc_eventgroup : Group G → Result (Group G) E
    pub alloc_shared : Shared T Q → Result (Shared T Q) E
    pub alloc_callback : Result (Unit {0}) E
    pub ipaddr_type_v4 : ℕ
    pub udp_bind : ℕ → IpAddr → ℕ → ℕ
    pub default_netif : Option ℕ
    pub netif_impl : ℕ → Option ℕ
    pub igmp_joingroup : ℕ → ℕ → ℕ

  pub record Protocol : Type 0 where
    pub socket : Udp G
    pub packet_rx : Shared T Q

  abbrev pub Bound : Type 0
  Bound = Result Protocol (BindError E) × Held

  -- The last two calls; `packet_rx` and then the socket go out of scope if one fails.
  unfoldable pub attach : Calls → Ipv4Addr → ℕ → Protocol → Held → Bound
  attach c group port p h =
      elim (Socket.bind G {E = E} c.ipaddr_type_v4 c.udp_bind
        (record { ip = unspecified; port = port }) p.socket) [
          | err e ↦ (err (bind_socket e), drop_socket (record h { packet_rx = false }))
          | ok _ ↦
              elim (multicast_group {E = E} c.igmp_joingroup
                (netif {E = E} c.default_netif c.netif_impl) group) [
                  | err e ↦
                      (err (join_multicast_group e), drop_socket (record h { packet_rx = false }))
                  | ok _ ↦ (ok p, h)
                ]
        ]

  -- From the callback on. If there is no memory for it the closure is dropped, and the sender in it.
  unfoldable pub set_callback : Calls → Ipv4Addr → ℕ → Protocol → Held → Bound
  set_callback c group port p h = elim c.alloc_callback [
    | err e ↦ (
      err (set_on_receive_callback e),
      drop_socket (record h { packet_tx = false; packet_rx = false }),
    )
    | ok _ ↦ attach c group port p (record h { callback = true })
  ]

  unfoldable pub bind : Calls → Ipv4Addr → ℕ → Bound
  bind c group port = elim (Socket.new G {E = E} c.udp_new_ip_type c.alloc_eventgroup) [
    | err e ↦ (err (new_socket e), nothing)
    | ok socket ↦
        let h = record nothing { socket = true } in
        elim (channel T Q {E = E} c.alloc_shared 16) [
          | err e ↦ (err (allocate_packet_queue e), drop_socket h)
          | ok shared ↦
              set_callback c group port (record { socket = socket; packet_rx = shared })
                (record h { packet_tx = true; packet_rx = true })
        ]
  ]

  abbrev pub everything : Held
  everything = record { socket = true; callback = true; packet_tx = true; packet_rx = true }

  abbrev pub left_by : Result Protocol (BindError E) → Held
  left_by (ok p) = everything
  left_by (err e) = nothing

  abbrev pub bind_port : Calls → ℕ → Udp G → Result (Unit {0}) (NetError E)
  bind_port c port =
      Socket.bind G c.ipaddr_type_v4 c.udp_bind (record { ip = unspecified; port = port })

  abbrev pub join_group : Calls → Ipv4Addr → Result (Unit {0}) (NetError E)
  join_group c = multicast_group c.igmp_joingroup (netif c.default_netif c.netif_impl)

  -- `bind` succeeds exactly if each of its steps does, with the socket and the receiver that the
  -- first two make. If it succeeds it holds the socket with its callback and both ends of the
  -- channel, and whichever step fails, it holds nothing in the end.
  pub bind-holds :
      (c : Calls) (group : Ipv4Addr) (port : ℕ)
      → let (result, held) = bind c group port in
        (held ≡ left_by result)
        × ((p : Protocol)
            → (result ≡ ok p) ↔ (
                (Socket.new G {E = E} c.udp_new_ip_type c.alloc_eventgroup ≡ ok p.socket)
                × (channel T Q {E = E} c.alloc_shared 16 ≡ ok p.packet_rx)
                × (c.alloc_callback ≡ ok tt)
                × (bind_port c port p.socket ≡ ok tt)
                × (join_group c group ≡ ok tt)))
  unfolding bind set_callback attach drop_socket
  bind-holds c group port = ground arith
