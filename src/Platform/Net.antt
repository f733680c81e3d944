-- ===== src/Platform/Net.antt =====
-- Addresses and lwIP results, src/platform/net.rs.
use bark_esp.Base.{
  ℕ, ◌+◌, ◌*◌, ◌/◌, ◌%◌, ◌^◌, ◌<◌, ◌≡◌, ◌↔◌, Option, none, some, Result, ok, err, map_err, ◌==◌,
  if◌then◌else◌, arith,
}

-- `core::net::Ipv4Addr`, its octets
pub record Ipv4Addr : Type 0 where
  pub octet0 : ℕ
  pub octet1 : ℕ
  pub octet2 : ℕ
  pub octet3 : ℕ

-- The shifted octets have no bit in common, and `|` adds them.
unfoldable pub rust_to_esp_ipv4_addr : Ipv4Addr → ℕ
rust_to_esp_ipv4_addr a = a.octet3 * 2 ^ 24 + a.octet2 * 2 ^ 16 + a.octet1 * 2 ^ 8 + a.octet0

-- `ip_addr`, for the member of its union that is set
pub record IpAddr : Type 0 where
  pub ip4 : ℕ
  pub addr_type : ℕ

-- `IPADDR_TYPE_V4` is a number of lwIP.
unfoldable pub rust_to_esp_ip_addr : (type_v4 : ℕ) → Ipv4Addr → IpAddr
rust_to_esp_ip_addr type_v4 a = record { ip4 = rust_to_esp_ipv4_addr a; addr_type = type_v4 }

unfoldable pub esp_to_rust_ipv4_addr : ℕ → Ipv4Addr
esp_to_rust_ipv4_addr addr = record {
  octet0 = addr % 2 ^ 8;
  octet1 = addr / 2 ^ 8 % 2 ^ 8;
  octet2 = addr / 2 ^ 16 % 2 ^ 8;
  octet3 = addr / 2 ^ 24 % 2 ^ 8;
}

pub data NetError (MallocError : Type 0) : Type 0 where
  no_netif : NetError MallocError
  new_socket : NetError MallocError
  alloc : MallocError → NetError MallocError
  lwip : (code : ℕ) → NetError MallocError

-- `LwipError::check`, for the pattern of an `i8`
unfoldable pub check : ℕ → Result (Unit {0}) ℕ
check rc = if rc == 0 then ok tt else err rc

-- `netif`: the default interface, if there is one, and its lwIP interface, if that is not null.
unfoldable pub netif : {E : Type 0} → Option ℕ → (ℕ → Option ℕ) → Result ℕ (NetError E)
netif default impl = elim default [
  | none ↦ err no_netif
  | some esp_netif ↦ elim (impl esp_netif) [ some n ↦ ok n | none ↦ err no_netif ]
]

-- `join_multicast_group` and `leave_multicast_group`, for lwIP's call.
unfoldable pub multicast_group :
    {E : Type 0} → (ℕ → ℕ → ℕ) → Result ℕ (NetError E) → Ipv4Addr → Result (Unit {0}) (NetError E)
multicast_group call (err e) group = err e
multicast_group call (ok n) group = map_err lwip (check (call n (rust_to_esp_ipv4_addr group)))

pub record IsOctets (a : Ipv4Addr) : Type 0 where
  pub small0 : a.octet0 < 2 ^ 8
  pub small1 : a.octet1 < 2 ^ 8
  pub small2 : a.octet2 < 2 ^ 8
  pub small3 : a.octet3 < 2 ^ 8

-- An address of four octets goes through lwIP's form, which fits 32 bits, and back unchanged.
pub ipv4-round_trip :
    (a : Ipv4Addr)
    → IsOctets a
    → (esp_to_rust_ipv4_addr (rust_to_esp_ipv4_addr a) ≡ a) × (rust_to_esp_ipv4_addr a < 2 ^ 32)
unfolding esp_to_rust_ipv4_addr rust_to_esp_ipv4_addr
ipv4-round_trip a h = (ground arith, omega (arith, h))

-- Joining or leaving a group succeeds exactly if there is an interface and lwIP returns 0.
multicast_group-ok :
    {E : Type 0} (call : ℕ → ℕ → ℕ) (default : Option ℕ) (impl : ℕ → Option ℕ) (group : Ipv4Addr)
    → (multicast_group {E = E} call (netif {E = E} default impl) group ≡ ok tt) ↔ (
        (i : ℕ) × (n : ℕ) × (default ≡ some i)
        × (impl i ≡ some n)
        × (call n (rust_to_esp_ipv4_addr group) ≡ 0))
unfolding multicast_group netif check
multicast_group-ok call default impl group = ground arith
