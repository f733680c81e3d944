-- ===== src/Sync/Queue/Drop.antt =====
-- The two ends of a channel leave it once each; the second frees it.
use Prim.Native.Nat.{bit_or}
use bark_esp.Base.{
  ℕ, zero, suc, ◌<◌, Option, some, none, List, [], ◌∷◌, length, arith, ◌≡◌, refl, ap, true, false,
}
use bark_esp.Extern.RtosQueue.{RtosQueue}
use bark_esp.Sync.Queue.{Shared, drop_side, rx_alive, tx_alive}

module _ (T : Type 0) (Q : RtosQueue T) where
  -- With both ends alive, as `channel` makes it, the first end to be dropped does not free the
  -- shared block and the second does, in either order.
  drop-last :
      (s : Shared T Q)
      → s.flags ≡ bit_or tx_alive rx_alive
      → ((drop_side T Q tx_alive s).0 ≡ false)
        × ((drop_side T Q rx_alive (drop_side T Q tx_alive s).1).0 ≡ true)
        × ((drop_side T Q rx_alive s).0 ≡ false)
        × ((drop_side T Q tx_alive (drop_side T Q rx_alive s).1).0 ≡ true)
  unfolding drop_side
  drop-last s both = rw both (refl, refl, refl, refl)

  abbrev and_then : T → Option (List T × Q.Carrier) → Option (List T × Q.Carrier)
  and_then item (some (items, q)) = some (item ∷ items, q)
  and_then item none = none

  -- The loop of `QueueHandle::drop`, on so many rounds: the items that it drops and what is left of
  -- the queue, `none` when the rounds run out.
  unfoldable pub drop_items : ℕ → Q.Carrier → Option (List T × Q.Carrier)
  drop_items zero q = none
  drop_items (suc rounds) q = elim (Q.receive q) [
    | some (item, q') ↦ and_then item (drop_items rounds q')
    | none ↦ some ([], q)
  ]

  drop_items-from :
      (rounds : ℕ) (q : Q.Carrier) (xs : List T)
      → Q.items q ≡ xs
      → length xs < rounds
      → (q' : Q.Carrier) × (drop_items rounds q ≡ some (xs, q')) × (Q.items q' ≡ [])
  unfolding drop_items
  drop_items-from zero q xs e h = absurd (omega arith)
  drop_items-from (suc rounds) q [] e h = (q, rw (Q.receive-nil q e, drop_items), e)
  drop_items-from (suc rounds) q (x ∷ xs) e h =
      let (q1, got, holds, cap) = Q.receive-cons q x xs e in
      let (q2, done, empty) = drop_items-from rounds q1 xs holds (omega arith) in
      (q2, rw (got, drop_items) (ap (and_then x) done), empty)

  -- The loop ends: one round more than the queue has items is enough. It drops each of them, in
  -- order, and leaves the queue empty.
  pub drop_items-ends :
      (rounds : ℕ) (q : Q.Carrier)
      → length (Q.items q) < rounds
      → (q' : Q.Carrier) × (drop_items rounds q ≡ some (Q.items q, q')) × (Q.items q' ≡ [])
  drop_items-ends rounds q h = drop_items-from rounds q (Q.items q) refl h
