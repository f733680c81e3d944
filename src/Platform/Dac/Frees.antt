-- ===== src/Platform/Dac/Frees.antt =====
-- The driver's channels are given back.
use bark_esp.Base.{
  ℕ, suc, ◌≡◌, List, [], ◌∷◌, Bool, true, false, ◌&&◌, if◌then◌else◌, arith, ap, Option, none, some,
}
use bark_esp.Platform.Dac.{init_buffer}
use bark_esp.Platform.Dac.Setup.{
  Call, new_channels, register_event_callback, enable, start_async_writing, del_channels, Driver,
  drop, new, run_stream,
}

abbrev is_del : Call → Bool
is_del del_channels = true
is_del _ = false

-- How often the channels were deleted.
abbrev pub dels : List Call → ℕ
dels [] = 0
dels (c ∷ cs) = let rest = dels cs in if is_del c then suc rest else rest

abbrev pub last_call : List Call → Option Call
last_call [] = none
last_call (c ∷ cs) = some c

-- The audio task, whose loop makes no call of the driver beyond its writes, deletes the channels of
-- the DAC once if they were made and not at all if not, whichever of the calls fail; it succeeds
-- exactly if the first four do, and calls nothing after it deleted the channels.
pub run_stream-dels :
    (works : Call → Bool) (loop : Driver → Driver) (d : Driver)
    → ((d1 : Driver) → (loop d1).calls ≡ d1.calls)
    → let (ok, d') = run_stream works loop d in
      (dels d'.calls ≡ (if works new_channels then suc (dels d.calls) else dels d.calls))
      × (ok ≡ (
          works new_channels
          && (works register_event_callback && (works enable && works start_async_writing))))
      × (works new_channels ≡ true → last_call d'.calls ≡ some del_channels)
unfolding run_stream new drop
run_stream-dels works loop d quiet = ground (arith, ap dels (quiet (ready d)), quiet (ready d))
  where
    -- the driver as the loop finds it
    ready : Driver → Driver
    ready d = record {
      calls = start_async_writing ∷ enable ∷ register_event_callback ∷ new_channels ∷ d.calls;
      buffer = init_buffer d.buffer;
    }
