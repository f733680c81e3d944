-- ===== src/Tests/Ring.antt =====
-- The ring buffer of src/sync/ringbuffer.rs, on a ring of five slots.
use bark_esp.Base.{ℕ, ◌≡◌, refl, List, [], ◌∷◌, ◌++◌, arith, take, drop}
use bark_esp.Sync.RingBuffer.{RingBuffer, buffer_len, write, read}
use bark_esp.Sync.RingBuffer.Contents.{IsValid, contents, SlicesInBounds, slices_in_bounds}
use bark_esp.Sync.RingBuffer.Write.{write_refines}
use bark_esp.Sync.RingBuffer.Read.{read_refines}
use bark_esp.Sync.RingBuffer.Interleaved.{Event, writer_moves, reader_moves, run, start}
use bark_esp.Sync.RingBuffer.Interleaved.Linearize.{run_linearizes}

-- 8, then 9, round the end
abbrev wrapped : RingBuffer ℕ
wrapped = record { reader = 4; writer = 1; buffer = 9 ∷ 0 ∷ 0 ∷ 0 ∷ 8 ∷ [] }

wrapped-IsValid : IsValid wrapped
wrapped-IsValid = omega arith

contents-wrapped : contents wrapped ≡ 8 ∷ 9 ∷ []
contents-wrapped = refl

write_refines_example :
    let (n, r') = write (1 ∷ 2 ∷ 3 ∷ []) wrapped in
    (n ≡ 2)
    × IsValid r'
    × (contents r' ≡ 8 ∷ 9 ∷ take n (1 ∷ 2 ∷ 3 ∷ []))
    × (r'.reader ≡ 4)
    × (buffer_len r' ≡ 5)
write_refines_example = write_refines (1 ∷ 2 ∷ 3 ∷ []) wrapped-IsValid

read_refines_example :
    let (out, n, r') = read (7 ∷ 7 ∷ 7 ∷ []) wrapped in
    (out ≡ 8 ∷ 9 ∷ 7 ∷ [])
    × (n ≡ 2)
    × (contents r' ≡ drop n (8 ∷ 9 ∷ []))
    × IsValid r'
    × (r'.writer ≡ 1)
    × (r'.buffer ≡ wrapped.buffer)
read_refines_example = read_refines (7 ∷ 7 ∷ 7 ∷ []) wrapped-IsValid

slices_in_bounds_example : SlicesInBounds wrapped
slices_in_bounds_example = slices_in_bounds wrapped-IsValid

-- The reader loads the writer's index, the writer writes all of 5 and 6, and the reader goes on.
abbrev schedule : List (Event ℕ)
schedule =
    reader_moves (0 ∷ 0 ∷ 0 ∷ 0 ∷ [])
    ∷ writer_moves (5 ∷ 6 ∷ [])
    ∷ writer_moves []
    ∷ reader_moves []
    ∷ writer_moves []
    ∷ reader_moves []
    ∷ []

run_linearizes_example :
    let s = run ℕ schedule (start ℕ wrapped) in
    (s.sent ≡ s.received ++ contents s.ring) × IsValid s.ring
run_linearizes_example = run_linearizes schedule wrapped wrapped-IsValid
