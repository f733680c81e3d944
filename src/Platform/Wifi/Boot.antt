-- ===== src/Platform/Wifi/Boot.antt =====
-- `init` of src/platform/mod.rs, with those of src/platform/eventloop.rs, src/platform/nvs.rs and
-- src/platform/wifi.rs, as the steps that it takes in order.
use bark_esp.Base.{
  ◌≡◌, refl, ap, List, [], ◌∷◌, ◌++◌, Bool, true, false, if◌then◌else◌, map, Result, ok, err,
}
use bark_esp.Platform.Wifi.{Call, init, netif_init}

pub data Step : Type 0 where
  init_event : Step
  create_event_loop : Step
  init_nvs_flash : Step
  wifi_call : (call : Call) → Step
  log_event_loop : Step
  log_nvs : Step
  spawn_platform_task : Step

-- What ends with a panic.
pub data Panic : Type 0 where
  expect_spawn : Panic

-- An error is logged, and that is all.
abbrev pub logged : Bool → Step → List Step
logged true log = []
logged false log = log ∷ []

-- `eventloop::init`
unfoldable pub init_event_loop : (Step → Bool) → List Step
init_event_loop works = create_event_loop ∷ logged (works create_event_loop) log_event_loop

-- `nvs::init`
unfoldable pub init_nvs : (Step → Bool) → List Step
init_nvs works = init_nvs_flash ∷ logged (works init_nvs_flash) log_nvs

-- The steps of `wifi::init`.
unfoldable pub init_wifi : (Step → Bool) → List Step
init_wifi works = map wifi_call (init (λ c. works (wifi_call c)))

-- `platform::init`
unfoldable pub init_platform : (Step → Bool) → List Step × Result (Unit {0}) Panic
init_platform works = (
  init_event
      ∷ (init_event_loop works
          ++ (init_nvs works ++ (init_wifi works ++ (spawn_platform_task ∷ [])))),
  if works spawn_platform_task then ok tt else err expect_spawn,
)

-- A list with such a last step.
abbrev pub EndsIn : Step → List Step → Type 0
EndsIn last steps = (before : List Step) × (steps ≡ before ++ (last ∷ []))

EndsIn-before :
    (front rest : List Step) (last : Step) → EndsIn last rest → EndsIn last (front ++ rest)
EndsIn-before [] rest last e = e
EndsIn-before (x ∷ front) rest last e =
    let (before, eq) = EndsIn-before front rest last e in (x ∷ before, ap (λ l. x ∷ l) eq)

-- Whatever fails of the event loop, of the flash and of the WiFi, the platform task is spawned as
-- the last step, after the event group is set up; only its own failure is a panic.
init_platform-spawns :
    (works : Step → Bool)
    → let (steps, out) = init_platform works in
      (later : List Step) × (steps ≡ init_event ∷ later)
      × EndsIn spawn_platform_task later
      × (works spawn_platform_task ≡ true → out ≡ ok tt)
      × (works spawn_platform_task ≡ false → out ≡ err expect_spawn)
unfolding init_platform
init_platform-spawns works = (
  init_event_loop works ++ (init_nvs works ++ (init_wifi works ++ (spawn_platform_task ∷ []))),
  refl,
  EndsIn-before (init_event_loop works) _ _
      (EndsIn-before (init_nvs works) _ _ (EndsIn-before (init_wifi works) _ _ ([], refl))),
  λ w. rw w refl,
  λ w. rw w refl,
)

-- If the network interface cannot be set up, the WiFi makes no call but that.
init_wifi-stops :
    (works : Step → Bool)
    → works (wifi_call netif_init) ≡ false
    → init_wifi works ≡ wifi_call netif_init ∷ []
unfolding init_wifi init
init_wifi-stops works f = rw f refl
