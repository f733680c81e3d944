-- ===== src/Platform/Dac/Setup.antt =====
-- The calls of the ESP-IDF driver by src/platform/dac.rs, and by the start and the end of the audio
-- task in src/app/stream.rs.
use bark_esp.Base.{List, ◌∷◌, Bool, true, false, if◌then◌else◌}
use bark_esp.Sync.RingBuffer.{RingBuffer}
use bark_esp.Platform.Dac.{Frame, init_buffer}

pub data Call : Type 0 where
  new_channels : Call
  register_event_callback : Call
  enable : Call
  start_async_writing : Call
  stop_async_writing : Call
  disable : Call
  del_channels : Call

-- The driver as the code sees it: whether a call works, the calls made, the last one first, and the
-- sample buffer.
pub record Driver : Type 0 where
  pub calls : List Call
  pub buffer : RingBuffer Frame

module _ (works : Call → Bool) where
  -- A call, and whether it worked.
  abbrev pub call : Call → Driver → Bool × Driver
  call c d = (works c, record d { calls = c ∷ d.calls })

  -- The drop of a `Dac`; its errors are ignored.
  unfoldable pub drop : Driver → Driver
  drop d = record d { calls = del_channels ∷ disable ∷ stop_async_writing ∷ d.calls }

  -- `?` while there is a `Dac`: it is dropped on an error.
  abbrev pub or_drop : Bool × Driver → (Driver → Bool × Driver) → Bool × Driver
  or_drop (ok, d) rest = if ok then rest d else (false, drop d)

  -- `Dac::new`, and then what is done with the `Dac`; `false` for an error.
  unfoldable pub new : (Driver → Bool × Driver) → Driver → Bool × Driver
  new rest d =
      let (ok, d') = call new_channels d in
      if ok
      then or_drop (call register_event_callback (record d' { buffer = init_buffer d'.buffer }))
          rest
      else (false, d')

  -- `run_stream`, for its loop, which ends with `Ok` or not at all: no write fails.
  unfoldable pub run_stream : (Driver → Driver) → Driver → Bool × Driver
  run_stream loop d =
      new
        (λ d1.
          or_drop (call enable d1)
            (λ d2. or_drop (call start_async_writing d2) (λ d3. (true, drop (loop d3)))))
        d
