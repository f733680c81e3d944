-- ===== src/Tests/Bind.antt =====
-- The set-up of the socket in src/app/protocol.rs and of the DAC in src/platform/dac.rs.
use bark_esp.Base.{ℕ, ◌≡◌, ◌↔◌, refl, some, none, ok, Bool, true, false, ◌&&◌, []}
use bark_esp.Extern.EventGroup.{bits_group}
use bark_esp.Extern.RtosQueue.{RtosQueue, list_queue}
use bark_esp.Sync.Queue.{channel}
use bark_esp.Platform.Net.{Ipv4Addr}
use bark_esp.Platform.Udp.Socket
use bark_esp.Platform.Dac.Setup.{
  Call, new_channels, register_event_callback, enable, start_async_writing, del_channels, Driver,
  run_stream,
}
use bark_esp.Platform.Dac.Frees.{dels, last_call, run_stream-dels}
use bark_esp.App.Bind.{Calls, Protocol, bind, left_by, bind_port, join_group, bind-holds}

abbrev Q : RtosQueue ℕ
Q = list_queue ℕ

-- All works but that there is no interface to join the group on.
abbrev no_interface : Calls bits_group ℕ ℕ Q
no_interface = record {
  udp_new_ip_type = some 3;
  alloc_eventgroup = λ g. ok g;
  alloc_shared = λ s. ok s;
  alloc_callback = ok tt;
  ipaddr_type_v4 = 0;
  udp_bind = λ pcb addr port. 0;
  default_netif = none;
  netif_impl = λ i. some i;
  igmp_joingroup = λ i group. 0;
}

abbrev group : Ipv4Addr
group = record { octet0 = 224; octet1 = 100; octet2 = 100; octet3 = 100 }

bind-holds_example :
    let (result, held) = bind bits_group ℕ ℕ Q no_interface group 1530 in
    (held ≡ left_by bits_group ℕ ℕ Q result)
    × ((p : Protocol bits_group ℕ ℕ Q)
        → (result ≡ ok p) ↔ (
            (Socket.new bits_group {E = ℕ} (some 3) (λ g. ok g) ≡ ok p.socket)
            × (channel ℕ Q {E = ℕ} (λ s. ok s) 16 ≡ ok p.packet_rx)
            × (no_interface.alloc_callback ≡ ok tt)
            × (bind_port bits_group ℕ ℕ Q no_interface 1530 p.socket ≡ ok tt)
            × (join_group bits_group ℕ ℕ Q no_interface group ≡ ok tt)))
bind-holds_example = bind-holds bits_group ℕ ℕ Q no_interface group 1530

-- The DAC cannot be enabled.
abbrev not_enabled : Call → Bool
not_enabled enable = false
not_enabled call = true

abbrev idle : Driver
idle = record { calls = []; buffer = record { reader = 0; writer = 0; buffer = [] } }

run_stream-dels_example :
    let (done, d') = run_stream not_enabled (λ d. d) idle in
    (dels d'.calls ≡ 1)
    × (done ≡ (
        not_enabled new_channels
        && (not_enabled register_event_callback
            && (not_enabled enable && not_enabled start_async_writing))))
    × (not_enabled new_channels ≡ true → last_call d'.calls ≡ some del_channels)
run_stream-dels_example = run_stream-dels not_enabled (λ d. d) idle (λ d. refl)
