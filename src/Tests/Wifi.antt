-- ===== src/Tests/Wifi.antt =====
-- The events of src/platform/wifi.rs, on a concrete event group.
use bark_esp.Base.{◌≡◌, refl, true, false}
use bark_esp.Extern.EventGroup.{bits_group}
use bark_esp.Platform.Wifi.Events.{
  System, online, waiting, ready, sta_got_ip, new_state, start, step_handler, here, handler_moves,
}
use bark_esp.Platform.Wifi.Events.Seen.{platform_step, seen-last}

abbrev handler_step : System bits_group → System bits_group
handler_step s = step_handler bits_group sta_got_ip s.handler s

-- The address was got, and the event is raised.
abbrev raised : System bits_group
raised = handler_step (handler_step (start bits_group))

raised-state : raised.state ≡ online
unfolding step_handler new_state
raised-state = refl

seen-last_example :
    (raised.handler ≡ ready
      → raised.platform ≡ waiting
      → bits_group.bits raised.event 0 ≡ false
      → raised.seen ≡ raised.state)
    × (raised.platform ≡ waiting
        → bits_group.bits raised.event 0 ≡ true
        → let s' = platform_step bits_group (platform_step bits_group raised) in
          (s'.seen ≡ raised.state)
          × (s'.platform ≡ waiting)
          × (bits_group.bits s'.event 0 ≡ false)
          × (s'.state ≡ raised.state))
seen-last_example = seen-last bits_group (handler_moves (handler_moves here sta_got_ip) sta_got_ip)
