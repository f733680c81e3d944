-- ===== src/Extern/EventGroup.antt =====
-- A FreeRTOS event group, as src/sync/eventgroup.rs uses it. A value of flags says of each bit,
-- by its number, whether it is set; a group has 24 bits.
use bark_esp.Base.{
  ℕ, zero, suc, ◌<◌, ◌≡◌, refl, Option, none, some, Bool, true, false, ◌&&◌, ◌||◌, not,
  if◌then◌else◌, arith,
}

abbrev pub Bits : Type 0
Bits = ℕ → Bool

abbrev pub num_bits : ℕ
num_bits = 24

pub record EventGroup : Type 1 where
  pub Carrier : Type 0
  pub bits : Carrier → Bits
  -- `xEventGroupCreateStatic`
  pub create : Carrier
  -- `xEventGroupSetBits`
  pub set_bits : Bits → Carrier → Carrier
  -- `xEventGroupClearBits`
  pub clear_bits : Bits → Carrier → Carrier
  -- `xEventGroupWaitBits` without a time limit, by whether it clears the bits and whether it waits
  -- for all of them; `none` while it waits.
  pub wait_bits : Bits → Bool → Bool → Carrier → Option (Bits × Carrier)
  pub create_lem : (i : ℕ) → bits create i ≡ false
  pub bits-set_bits : (m : Bits) (g : Carrier) (i : ℕ) → bits (set_bits m g) i ≡ (m i || bits g i)
  pub bits-clear_bits :
      (m : Bits) (g : Carrier) (i : ℕ) → bits (clear_bits m g) i ≡ (not (m i) && bits g i)
  pub wait_all-ready :
      (m : Bits) (clear : Bool) (g : Carrier)
      → ((i : ℕ) → m i ≡ true → bits g i ≡ true)
      → wait_bits m clear true g ≡ some (bits g, if clear then clear_bits m g else g)
  pub wait_all-blocked :
      (m : Bits) (clear : Bool) (g : Carrier) (i : ℕ)
      → i < num_bits
      → m i ≡ true
      → bits g i ≡ false
      → wait_bits m clear true g ≡ none
  pub wait_any-ready :
      (m : Bits) (clear : Bool) (g : Carrier) (i : ℕ)
      → i < num_bits
      → m i ≡ true
      → bits g i ≡ true
      → wait_bits m clear false g ≡ some (bits g, if clear then clear_bits m g else g)
  pub wait_any-blocked :
      (m : Bits) (clear : Bool) (g : Carrier)
      → ((i : ℕ) → m i ≡ true → bits g i ≡ false)
      → wait_bits m clear false g ≡ none

-- The bits themselves are such a group.
abbrev pub any_below : ℕ → Bits → Bits → Bool
any_below zero m g = false
any_below (suc n) m g = (m n && g n) || any_below n m g

abbrev pub all_below : ℕ → Bits → Bits → Bool
all_below zero m g = true
all_below (suc n) m g = (not (m n) || g n) && all_below n m g

pub any_below-hit :
    (n : ℕ) (m g : Bits) (i : ℕ) → i < n → m i ≡ true → g i ≡ true → any_below n m g ≡ true
any_below-hit zero m g i lt a b = absurd (omega arith)
any_below-hit (suc n) m g i lt a b = ground (arith, any_below-hit n m g i)

pub any_below-miss :
    (n : ℕ) (m g : Bits) → ((i : ℕ) → m i ≡ true → g i ≡ false) → any_below n m g ≡ false
any_below-miss zero m g h = refl
any_below-miss (suc n) m g h = ground (arith, h n, any_below-miss n m g h)

pub all_below-hit :
    (n : ℕ) (m g : Bits) → ((i : ℕ) → m i ≡ true → g i ≡ true) → all_below n m g ≡ true
all_below-hit zero m g h = refl
all_below-hit (suc n) m g h = ground (arith, h n, all_below-hit n m g h)

pub all_below-miss :
    (n : ℕ) (m g : Bits) (i : ℕ) → i < n → m i ≡ true → g i ≡ false → all_below n m g ≡ false
all_below-miss zero m g i lt a b = absurd (omega arith)
all_below-miss (suc n) m g i lt a b = ground (arith, all_below-miss n m g i)

abbrev pub set_word : Bits → Bits → Bits
set_word m g i = m i || g i

abbrev pub clear_word : Bits → Bits → Bits
clear_word m g i = not (m i) && g i

abbrev pub is_ready : Bool → Bits → Bits → Bool
is_ready true m g = all_below num_bits m g
is_ready false m g = any_below num_bits m g

abbrev pub wait_word : Bits → Bool → Bool → Bits → Option (Bits × Bits)
wait_word m clear all g =
    if is_ready all m g then some (g, if clear then clear_word m g else g) else none

abbrev pub bits_group : EventGroup
bits_group = record {
  Carrier = Bits;
  bits = λ g. g;
  create = λ i. false;
  set_bits = set_word;
  clear_bits = clear_word;
  wait_bits = wait_word;
  create_lem = λ i. refl;
  bits-set_bits = λ m g i. refl;
  bits-clear_bits = λ m g i. refl;
  wait_all-ready = λ m clear g h. rw (all_below-hit num_bits m g h) refl;
  wait_all-blocked = λ m clear g i lt a b. rw (all_below-miss num_bits m g i lt a b) refl;
  wait_any-ready = λ m clear g i lt a b. rw (any_below-hit num_bits m g i lt a b) refl;
  wait_any-blocked = λ m clear g h. rw (any_below-miss num_bits m g h) refl;
}
