-- ===== src/Tests/Stream.antt =====
-- Streams and samples, src/app/mod.rs and src/app/stream.rs.
use bark_esp.Base.{ℕ, ◌+◌, ◌^◌, ◌≡◌, ◌≤◌, ◌<◌, refl, some, true, Result, ok, arith}
use bark_esp.App.Receiver.{receiving_packets, Stream, prepare_stream, new_stream}
use bark_esp.App.Stream.Sample.Accuracy.{Near, convint8-Near}
use bark_esp.App.Stream.Sample.{convint8, times_sign, convint8-over_one}

-- A queue is the number of packets in it.
abbrev first : Stream ℕ (Unit {0})
first = record { sid = 5; timing = tt; queue = 0; start = receiving_packets 0 }

abbrev new_queue : ℕ → Result ℕ (Unit {0})
new_queue seq = ok 0

abbrev second : Stream ℕ (Unit {0})
second = record { sid = 7; timing = tt; queue = 0; start = receiving_packets 0 }

prepared : prepare_stream ℕ (Unit {0}) 2 tt new_queue 7 100 (some first) ≡ some second
unfolding prepare_stream new_stream
prepared = refl

-- one and a half
convint8-over_one_example : (128 ≤ convint8 0x3fc00000) × (convint8 0x3fc00000 < 256)
convint8-over_one_example = convint8-over_one 0x3fc00000 (omega arith) (omega arith)

-- a half: with the implicit bit its significand is 2^23
convint8-Near_example :
    Near (convint8 0x3f000000) (2 ^ 23) 2
    × (convint8 0x3f000000 ≤ 127)
    × (convint8 (0x3f000000 + 2 ^ 31) ≡ times_sign true (convint8 0x3f000000))
convint8-Near_example = convint8-Near 0x3f000000 (omega arith) (omega arith)
