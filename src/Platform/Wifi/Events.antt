-- ===== src/Platform/Wifi/Events.antt =====
-- The state of the WiFi, from the event handlers of src/platform/wifi.rs on the task of ESP-IDF's
-- events to the platform task of src/platform/mod.rs. Each step is one access to shared memory.
pub mod Seen
use bark_esp.Base.{ℕ, suc, Option, none, some, Bool, true, false, ◌==◌, if◌then◌else◌}
use bark_esp.Extern.EventGroup.{Bits, EventGroup}

pub data WifiState : Type 0 where
  uninit : WifiState
  started : WifiState
  online : WifiState
  disconnected : WifiState

-- The events of ESP-IDF that the two handlers are registered for.
pub data Event : Type 0 where
  sta_start : Event
  sta_disconnected : Event
  sta_got_ip : Event
  other : Event

-- `PlatformEvent::WIFI`, the one flag
abbrev pub wifi : Bits
wifi i = i == 0

-- `PlatformEvent::all`
abbrev pub all_events : Bits
all_events i = i == 0

-- Where the platform task stands in its loop.
pub data Platform : Type 0 where
  waiting : Platform
  loading : Platform  -- in `on_wifi_event`, before the load of the state

-- Where ESP-IDF's task stands in a handler.
pub data Handler : Type 0 where
  ready : Handler
  raising : Handler  -- before `raise_event`

-- What `on_wifi_event` and `on_ip_event` store for an event.
unfoldable pub new_state : Event → Option WifiState
new_state sta_start = some started
new_state sta_disconnected = some disconnected
new_state sta_got_ip = some online
new_state other = none

module _ (G : EventGroup) where
  pub record System : Type 0 where
    pub state : WifiState
    pub event : G.Carrier
    pub platform : Platform
    pub handler : Handler
    -- the state that the platform task last acted on
    pub seen : WifiState
    -- the number of calls of `app::start`
    pub starts : ℕ

  -- After `init_with` no event.
  abbrev pub start : System
  start = record {
    state = uninit;
    event = G.set_bits (λ i. false) G.create;
    platform = waiting;
    handler = ready;
    seen = uninit;
    starts = 0;
  }

  abbrev pub store_state : Option WifiState → System → System
  store_state (some w) s = record s { state = w; handler = raising }
  store_state none s = s

  -- A step of ESP-IDF's task; `e` is the event that it gets if it is ready for one.
  unfoldable pub step_handler : Event → Handler → System → System
  step_handler e ready s = store_state (new_state e) s
  step_handler e raising s = record s { event = G.set_bits wifi s.event; handler = ready }

  -- `app::start` spawns the application; `app::stop` does nothing.
  abbrev pub count_start : WifiState → ℕ → ℕ
  count_start online n = suc n
  count_start uninit n = n
  count_start started n = n
  count_start disconnected n = n

  -- A step of the platform task.
  unfoldable pub step_platform : Platform → System → System
  step_platform waiting s = elim (G.wait_bits all_events true false s.event) [
    | some (events, g) ↦ record s { event = g; platform = if events 0 then loading else waiting }
    | none ↦ s
  ]
  step_platform loading s = record s {
    platform = waiting;
    seen = s.state;
    starts = count_start s.state s.starts;
  }

  pub data Reach : System → Type 0 where
    here : Reach start
    handler_moves : {s : System} → Reach s → (e : Event) → Reach (step_handler e s.handler s)
    platform_moves : {s : System} → Reach s → Reach (step_platform s.platform s)
