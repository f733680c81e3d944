-- ===== src/Platform/Wifi.antt =====
-- WiFi, src/platform/wifi.rs: its set-up as the sequence of calls of ESP-IDF, and the events that
-- reach the platform task of src/platform/mod.rs (Platform.Wifi.Events).
pub mod Events
pub mod Setup
pub mod Config
pub mod Boot
use bark_esp.Base.{
  ℕ, ◌-◌, List, [], ◌∷◌, ◌++◌, Bool, true, false, if◌then◌else◌, length, take, min, replicate, blit,
}

-- The calls that `init` and `configure` make.
pub data Call : Type 0 where
  netif_init : Call
  create_default_wifi_sta : Call
  wifi_init : Call
  wifi_start : Call
  attach_wifi_event : Call
  attach_ip_event : Call
  set_mode : Call
  set_config : Call
  wifi_restart : Call  -- the second `esp_wifi_start`
  wifi_connect : Call

-- A call whose failure ends the function; `works` says which calls succeed.
abbrev pub attempt : (Call → Bool) → Call → List Call → List Call
attempt works call rest = call ∷ (if works call then rest else [])

-- The calls of `configure`, in order.
unfoldable pub configure : (Call → Bool) → List Call
configure works = attempt works set_mode (set_config ∷ [])

-- The calls of `init`, in order. From `configure` on an error is logged and no more.
unfoldable pub init : (Call → Bool) → List Call
init works = attempt works netif_init (
    attempt works create_default_wifi_sta (
      attempt works wifi_init (
        attempt works wifi_start (
          attempt works attach_wifi_event (
            attempt works attach_ip_event
              (configure works ++ (wifi_restart ∷ wifi_connect ∷ [])))))))

-- `fixed`, for the bytes of a text
unfoldable pub fixed : ℕ → List ℕ → List ℕ
fixed n s = let len = min n (length s) in blit (replicate n 0) 0 (take len s)
