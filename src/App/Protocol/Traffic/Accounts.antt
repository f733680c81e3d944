-- ===== src/App/Protocol/Traffic/Accounts.antt =====
-- Where the items of the arrivals end up.
use mathlib.Core.Path.{subst}
use bark_esp.Base.{
  Option, none, some, ℕ, suc, ◌+◌, ◌%◌, ◌^◌, ◌≤◌, ◌≡◌, refl, sym, ap, ◌∙◌, List, [], ◌∷◌, ◌++◌,
  length, Result, ok, err, arith, dec_lt, length-append,
}
use bark_esp.Extern.RtosQueue.{RtosQueue}
use bark_esp.Stats.{Stats}
use bark_esp.Stats.Counters.{increment, add}
use bark_esp.Task.Registry.TaskSlot.{Slots}
use bark_esp.Sync.Queue.{Shared, try_send, try_receive}
use bark_esp.Sync.Queue.Fifo as Fifo
use bark_esp.Sync.Queue.Fifo.{
  Trace, held, add_sent, add_received, send-room-state, send-full-state, receive-nil-state,
  receive-cons-state, run_fifo,
}
use bark_esp.App.Protocol.{PacketBuffer, Item, on_receive}
use bark_esp.App.Protocol.Traffic.{Event, arrives, takes, item_of, offered, ops_of, add_taken, run}

-- A list is another without so many of its items.
pub data Without {A : Type 0} : ℕ → List A → List A → Type 0 where
  both_empty : Without 0 [] []
  keep : {n : ℕ} {xs ys : List A} (x : A) → Without n xs ys → Without n (x ∷ xs) (x ∷ ys)
  leave : {n : ℕ} {xs ys : List A} (y : A) → Without n xs ys → Without (suc n) xs (y ∷ ys)

module _ (Addr E : Type 0) (Q : RtosQueue (Item Addr E)) (slots : Slots)
    (allocate : ℕ → Result ℕ E) where
  -- What became of the items that were offered.
  record Accounts (es : List (Event Addr)) (s : Shared (Item Addr E) Q) (stats : Stats)
      (out : List (Item Addr E) × Shared (Item Addr E) Q × Stats) : Type 0 where
    taken : (Fifo.run (Item Addr E) Q slots (ops_of Addr E Q slots allocate es) s).received ≡ out.0
    same : (Fifo.run (Item Addr E) Q slots (ops_of Addr E Q slots allocate es) s).last ≡ out.1
    dropped : ℕ
    fits :
        length (held (Item Addr E) Q slots s) + length (offered Addr E Q slots allocate es)
          ≤ Q.capacity s.handle
        → dropped ≡ 0
    part :
        Without dropped
          (Fifo.run (Item Addr E) Q slots (ops_of Addr E Q slots allocate es) s).accepted
          (offered Addr E Q slots allocate es)
    arrived :
        out.2.wifi_packets_received.value % 2 ^ 32
        ≡ (stats.wifi_packets_received.value + length (offered Addr E Q slots allocate es)) % 2 ^ 32
    counted :
        out.2.packets_dropped_in_protocol_queue.value % 2 ^ 32
        ≡ (stats.packets_dropped_in_protocol_queue.value + dropped) % 2 ^ 32

  abbrev TraceOf : Type 0
  TraceOf = Trace (Item Addr E) Q slots

  add_received-last :
      (o : Option (Item Addr E)) (t : TraceOf)
      → ((add_received (Item Addr E) Q slots o t).last ≡ t.last)
        × ((add_received (Item Addr E) Q slots o t).accepted ≡ t.accepted)
        × ((add_received (Item Addr E) Q slots o t).received
            ≡ add_taken Addr E Q slots allocate o t.received)
  add_received-last none t = (refl, refl, refl)
  add_received-last (some x) t = (refl, refl, refl)

  -- The statistics once a packet has arrived.
  abbrev counted_in : Stats → Stats
  counted_in stats = record stats { wifi_packets_received = increment stats.wifi_packets_received }

  on_receive-takes :
      (pbuf : PacketBuffer) (addr : Addr) (s s' : Shared (Item Addr E) Q) (stats : Stats)
      (woken : List ℕ)
      → try_send (Item Addr E) Q slots (item_of Addr E Q slots allocate pbuf addr) s
        ≡ (ok tt, woken, s')
      → on_receive Addr E Q slots allocate pbuf addr s stats ≡ (s', counted_in stats)
  unfolding on_receive
  on_receive-takes pbuf addr s s' stats woken e = rw (on_receive, e) refl

  on_receive-drops :
      (pbuf : PacketBuffer) (addr : Addr) (s : Shared (Item Addr E) Q) (stats : Stats)
      → try_send (Item Addr E) Q slots (item_of Addr E Q slots allocate pbuf addr) s
        ≡ (err (item_of Addr E Q slots allocate pbuf addr), [], s)
      → on_receive Addr E Q slots allocate pbuf addr s stats ≡ (
        s,
        record (counted_in stats) {
          packets_dropped_in_protocol_queue = increment stats.packets_dropped_in_protocol_queue;
        },
      )
  unfolding on_receive
  on_receive-drops pbuf addr s stats e = rw (on_receive, e) refl

  -- A receive makes room, if anything.
  receive-room :
      (s : Shared (Item Addr E) Q) (xs : List (Item Addr E))
      → held (Item Addr E) Q slots s ≡ xs
      → let s' = (try_receive (Item Addr E) Q slots s).2 in
        (length (held (Item Addr E) Q slots s') ≤ length (held (Item Addr E) Q slots s))
        × (Q.capacity s'.handle ≡ Q.capacity s.handle)
  receive-room s [] e = rw (receive-nil-state (Item Addr E) Q slots s e) (omega arith, refl)
  receive-room s (x ∷ xs) e =
      let (s', woken, got, holds, cap) = receive-cons-state (Item Addr E) Q slots s x xs e in
      rw got (omega (arith, ap length holds, ap length e), cap)

  Accounts-takes :
      (es : List (Event Addr)) (s : Shared (Item Addr E) Q) (stats : Stats)
      → Accounts es
          (try_receive (Item Addr E) Q slots s).2
          stats
          (run Addr E Q slots allocate es (try_receive (Item Addr E) Q slots s).2 stats)
      → Accounts (takes ∷ es) s stats (run Addr E Q slots allocate (takes ∷ es) s stats)
  unfolding run Fifo.run
  Accounts-takes es s stats v =
      let (last, accepted, received) = add_received-last (try_receive (Item Addr E) Q slots s).0 (
        Fifo.run (Item Addr E) Q slots (ops_of Addr E Q slots allocate es)
          (try_receive (Item Addr E) Q slots s).2) in
      record {
        taken =
            received
            ∙ ap (add_taken Addr E Q slots allocate (try_receive (Item Addr E) Q slots s).0)
                v.taken;
        same = last ∙ v.same;
        dropped = v.dropped;
        fits = λ h. v.fits (omega (arith, h, (receive-room s _ refl).0, (receive-room s _ refl).1));
        part =
            subst (λ xs. Without v.dropped xs (offered Addr E Q slots allocate es)) (sym accepted)
              v.part;
        arrived = v.arrived;
        counted = v.counted;
      }

  Accounts-room :
      (pbuf : PacketBuffer) (addr : Addr) (es : List (Event Addr)) (s s' : Shared (Item Addr E) Q)
      (stats : Stats) (woken : List ℕ)
      → try_send (Item Addr E) Q slots (item_of Addr E Q slots allocate pbuf addr) s
        ≡ (ok tt, woken, s')
      → held (Item Addr E) Q slots s'
        ≡ held (Item Addr E) Q slots s ++ item_of Addr E Q slots allocate pbuf addr ∷ []
      → Q.capacity s'.handle ≡ Q.capacity s.handle
      → Accounts es s' (counted_in stats) (run Addr E Q slots allocate es s' (counted_in stats))
      → Accounts
          (arrives pbuf addr ∷ es)
          s
          stats
          (run Addr E Q slots allocate (arrives pbuf addr ∷ es) s stats)
  unfolding run Fifo.run increment add
  Accounts-room pbuf addr es s s' stats woken e holds cap v =
      rw (on_receive-takes pbuf addr s s' stats woken e) (record {
        taken = rw (Fifo.run, e) v.taken;
        same = rw (Fifo.run, e) v.same;
        dropped = v.dropped;
        fits = λ h. v.fits (
            omega (
              arith,
              h,
              cap,
              ap length holds,
              length-append (held (Item Addr E) Q slots s)
                  (item_of Addr E Q slots allocate pbuf addr ∷ []),
            ));
        part = rw (Fifo.run, e) (keep (item_of Addr E Q slots allocate pbuf addr) v.part);
        arrived = omega (arith, v.arrived);
        counted = v.counted;
      })

  Accounts-full :
      (pbuf : PacketBuffer) (addr : Addr) (es : List (Event Addr)) (s : Shared (Item Addr E) Q)
      (stats stats' : Stats)
      → try_send (Item Addr E) Q slots (item_of Addr E Q slots allocate pbuf addr) s
        ≡ (err (item_of Addr E Q slots allocate pbuf addr), [], s)
      → Q.capacity s.handle ≤ length (held (Item Addr E) Q slots s)
      → stats' ≡ record (counted_in stats) {
        packets_dropped_in_protocol_queue = increment stats.packets_dropped_in_protocol_queue;
      }
      → Accounts es s stats' (run Addr E Q slots allocate es s stats')
      → Accounts
          (arrives pbuf addr ∷ es)
          s
          stats
          (run Addr E Q slots allocate (arrives pbuf addr ∷ es) s stats)
  unfolding run Fifo.run increment add
  Accounts-full pbuf addr es s stats stats' e full same v =
      rw (on_receive-drops pbuf addr s stats e, ← same)
        (record {
          taken = rw (Fifo.run, e) v.taken;
          same = rw (Fifo.run, e) v.same;
          dropped = suc v.dropped;
          fits = λ h. absurd (omega (arith, h, full));
          part = rw (Fifo.run, e) (leave (item_of Addr E Q slots allocate pbuf addr) v.part);
          arrived = omega (arith, v.arrived, ap (λ t. t.wifi_packets_received.value) same);
          counted =
              omega (arith, v.counted, ap (λ t. t.packets_dropped_in_protocol_queue.value) same);
        })

  run-Accounts :
      (es : List (Event Addr)) (s : Shared (Item Addr E) Q) (stats : Stats)
      → Accounts es s stats (run Addr E Q slots allocate es s stats)
  unfolding run Fifo.run
  run-Accounts [] s stats = record {
    taken = refl;
    same = refl;
    dropped = 0;
    fits = λ h. refl;
    part = both_empty;
    arrived = omega arith;
    counted = omega arith;
  }
  run-Accounts (takes ∷ es) s stats =
      Accounts-takes es s stats (run-Accounts es (try_receive (Item Addr E) Q slots s).2 stats)
  run-Accounts (arrives pbuf addr ∷ es) s stats =
      elim (dec_lt (length (held (Item Addr E) Q slots s)) (Q.capacity s.handle)) [
        | yes lt ↦
            let (s', sent, holds, cap) =
              send-room-state (Item Addr E) Q slots (item_of Addr E Q slots allocate pbuf addr) s
                lt in
            Accounts-room pbuf addr es s s' stats _ sent holds cap
              (run-Accounts es s' (counted_in stats))
        | no full ↦
            Accounts-full pbuf addr es s stats _
              (send-full-state (Item Addr E) Q slots (item_of Addr E Q slots allocate pbuf addr) s
                (omega arith))
              (omega arith) refl (run-Accounts es s _)
      ]

  -- Whatever mix of arrivals at the callback and of items taken at the other end a channel meets
  -- that holds no more than its capacity: what it held and then the items of the arrivals, in their
  -- order and without so many that were dropped, are what was taken and then what it holds at the
  -- end; none is dropped if all of them fit beside what it held; every arrival is counted once, and every drop, modulo 2^32.
  pub run_accounts :
      (es : List (Event Addr)) (s : Shared (Item Addr E) Q) (stats : Stats)
      → length (held (Item Addr E) Q slots s) ≤ Q.capacity s.handle
      → let (taken, s', stats') = run Addr E Q slots allocate es s stats in
        (dropped : ℕ) × (accepted : List (Item Addr E)) × Without dropped accepted
          (offered Addr E Q slots allocate es)
        × (held (Item Addr E) Q slots s ++ accepted ≡ taken ++ held (Item Addr E) Q slots s')
        × (length (held (Item Addr E) Q slots s) + length (offered Addr E Q slots allocate es)
              ≤ Q.capacity s.handle
            → dropped ≡ 0)
        × (stats'.wifi_packets_received.value % 2 ^ 32
            ≡ (stats.wifi_packets_received.value + length (offered Addr E Q slots allocate es))
              % 2 ^ 32)
        × (stats'.packets_dropped_in_protocol_queue.value % 2 ^ 32
            ≡ (stats.packets_dropped_in_protocol_queue.value + dropped) % 2 ^ 32)
  run_accounts es s stats h =
      let v = run-Accounts es s stats in
      let t = Fifo.run (Item Addr E) Q slots (ops_of Addr E Q slots allocate es) s in
      (
        v.dropped,
        t.accepted,
        v.part,
        (run_fifo (Item Addr E) Q slots (ops_of Addr E Q slots allocate es) s h).0
            ∙ ap (λ l. l ++ held (Item Addr E) Q slots t.last) v.taken
            ∙ ap (λ l. (run Addr E Q slots allocate es s stats).0 ++ held (Item Addr E) Q slots l)
                v.same,
        v.fits,
        v.arrived,
        v.counted,
      )
