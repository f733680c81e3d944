-- ===== src/Platform/Udp/Socket.antt =====
-- The calls of lwIP by a socket of src/platform/net/udp.rs. A pointer is its number.
use bark_esp.Base.{ℕ, false, Option, none, some, Result, ok, err, map_err}
use bark_esp.Extern.EventGroup.{EventGroup}
use bark_esp.Sync.EventGroup.{Group, boxed}
use bark_esp.Platform.Net.{
  Ipv4Addr, IpAddr, rust_to_esp_ip_addr, NetError, new_socket, alloc, lwip, check,
}

-- `SocketAddrV4`
pub record SocketAddrV4 : Type 0 where
  pub ip : Ipv4Addr
  pub port : ℕ

-- `Udp`, without the callback
pub record Udp (G : EventGroup) : Type 0 where
  pub udp : ℕ
  pub eventgroup : Group G

-- `UdpPtr::new`, for what `udp_new_ip_type` returns
unfoldable pub new_pcb : {E : Type 0} → Option ℕ → Result ℕ (NetError E)
new_pcb (some ptr) = ok ptr
new_pcb none = err new_socket

abbrev pub with_group :
    {G : EventGroup} {E : Type 0} → ℕ → Result (Group G) E → Result (Udp G) (NetError E)
with_group udp (ok g) = ok (record { udp = udp; eventgroup = g })
with_group udp (err e) = err (alloc e)

-- `Udp::new`, for the results of the calls that make the socket and allocate its group
unfoldable pub new :
    (G : EventGroup) {E : Type 0}
    → Option ℕ
    → (Group G → Result (Group G) E)
    → Result (Udp G) (NetError E)
new G pcb malloc = elim (new_pcb pcb) [
  | ok udp ↦ with_group udp (boxed G malloc (λ i. false))
  | err e ↦ err e
]

module _ (G : EventGroup) {E : Type 0} (type_v4 : ℕ) where
  -- `Udp::bind`, for `udp_bind` on the pointer, the address and the port
  unfoldable pub bind : (ℕ → IpAddr → ℕ → ℕ) → SocketAddrV4 → Udp G → Result (Unit {0}) (NetError E)
  bind udp_bind addr u =
      map_err lwip (check (udp_bind u.udp (rust_to_esp_ip_addr type_v4 addr.ip) addr.port))

  -- `Udp::send_to`, for `udp_sendto` on the pointer, the bytes, the address and the port
  unfoldable pub send_to :
      {Buffer : Type 0}
      → (ℕ → Buffer → IpAddr → ℕ → ℕ)
      → Buffer
      → SocketAddrV4
      → Udp G
      → Result (Unit {0}) (NetError E)
  send_to udp_sendto buffer addr u =
      map_err lwip (check (udp_sendto u.udp buffer (rust_to_esp_ip_addr type_v4 addr.ip) addr.port))
