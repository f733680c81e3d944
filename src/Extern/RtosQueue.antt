-- ===== src/Extern/RtosQueue.antt =====
-- A FreeRTOS queue of items, as src/sync/queue.rs uses it through native/queue.c, never waiting.
use bark_esp.Base.{
  ℕ, ◌-◌, ◌≤◌, ◌<◌, ◌≡◌, refl, Option, none, some, List, [], ◌∷◌, ◌++◌, length, arith, ltb,
  if◌then◌else◌, lt→ltb, le→ltb-false,
}

pub record RtosQueue (T : Type 0) : Type 1 where
  pub Carrier : Type 0
  -- what the queue holds, oldest first, and how much it can hold
  pub items : Carrier → List T
  pub capacity : Carrier → ℕ
  -- `xQueueCreate`, `none` for a null handle
  pub create : ℕ → Option Carrier
  -- `xQueueSendToBack`, `none` for a full queue
  pub send_to_back : T → Carrier → Option Carrier
  -- `xQueueReceive`, `none` for an empty queue
  pub receive : Carrier → Option (T × Carrier)
  -- `uxQueueSpacesAvailable`
  pub spaces : Carrier → ℕ
  pub create_lem : (n : ℕ) (q : Carrier) → create n ≡ some q → (items q ≡ []) × (capacity q ≡ n)
  pub send-room :
      (a : T) (q : Carrier)
      → length (items q) < capacity q
      → (q' : Carrier) × (send_to_back a q ≡ some q')
        × (items q' ≡ items q ++ (a ∷ []))
        × (capacity q' ≡ capacity q)
  pub send-full : (a : T) (q : Carrier) → capacity q ≤ length (items q) → send_to_back a q ≡ none
  pub receive-nil : (q : Carrier) → items q ≡ [] → receive q ≡ none
  pub receive-cons :
      (q : Carrier) (a : T) (rest : List T)
      → items q ≡ a ∷ rest
      → (q' : Carrier) × (receive q ≡ some (a, q')) × (items q' ≡ rest) × (capacity q' ≡ capacity q)
  pub spaces_lem : (q : Carrier) → spaces q ≡ capacity q - length (items q)

-- A list with its limit is such a queue.
module _ (T : Type 0) where
  abbrev pub Limited : Type 0
  Limited = ℕ × List T

  abbrev pub push : T → Limited → Option Limited
  push a (n, xs) = if ltb (length xs) n then some (n, xs ++ a ∷ []) else none

  abbrev pub take_first : Limited → Option (T × Limited)
  take_first (n, []) = none
  take_first (n, x ∷ xs) = some (x, (n, xs))

  pub take_first-nil : (q : Limited) → q.1 ≡ [] → take_first q ≡ none
  take_first-nil (n, []) e = refl
  take_first-nil (n, x ∷ xs) e = cc

  pub take_first-cons :
      (q : Limited) (a : T) (rest : List T)
      → q.1 ≡ a ∷ rest
      → (q' : Limited) × (take_first q ≡ some (a, q')) × (q'.1 ≡ rest) × (q'.0 ≡ q.0)
  take_first-cons (n, []) a rest e = cc
  take_first-cons (n, x ∷ xs) a rest e = ((n, xs), ground arith, ground arith, refl)

  abbrev pub list_queue : RtosQueue T
  list_queue = record {
    Carrier = Limited;
    items = λ q. q.1;
    capacity = λ q. q.0;
    create = λ n. some (n, []);
    send_to_back = push;
    receive = take_first;
    spaces = λ q. q.0 - length q.1;
    create_lem = λ n q e. ground arith;
    send-room = λ a q h. ((q.0, q.1 ++ a ∷ []), rw (lt→ltb (length q.1) q.0 h), refl, refl);
    send-full = λ a q h. rw (le→ltb-false (length q.1) q.0 h);
    receive-nil = take_first-nil;
    receive-cons = take_first-cons;
    spaces_lem = λ q. refl;
  }
