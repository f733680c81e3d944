-- ===== src/Platform/Udp.antt =====
-- The receive callback of src/platform/net/udp.rs: the task that owns the socket sets, replaces and
-- frees it, while lwIP's task dispatches packets to it. A callback is its number; the flags are
-- those of the event group that `EventGroup::boxed` made, which always has its handle.
pub mod Invariant
pub mod NetSteps
pub mod OwnerSteps
pub mod Quiesce
pub mod Race
pub mod Socket
use bark_esp.Base.{
  ℕ, suc, ◌+◌, Option, none, some, Bool, true, false, ◌||◌, ◌&&◌, not, ◌==◌, if◌then◌else◌, Result,
  ok, err,
}
use bark_esp.Extern.EventGroup.{Bits, EventGroup}
use bark_esp.Task.Registry.TaskSlot.{update}

-- `Flags`
abbrev pub callback_safe : Bits
callback_safe i = i == 0

abbrev pub callback_stop : Bits
callback_stop i = i == 1

abbrev pub all_flags : Bits
all_flags i = (i == 0) || (i == 1)

-- What `safely_free_receive_callback` is called for.
pub data Goal : Type 0 where
  -- the drop of the socket
  drop : Goal
  -- `on_receive` with the new callback
  replace : (new : ℕ) → Goal

-- Where the owner of the socket stands, with its `receive_cb` between calls.
pub data Owner : Type 0 where
  outside : (receive_cb : Option ℕ) → Owner
  stopping : (callback : ℕ) → Goal → Owner  -- before the stop flag is set
  unsetting : (callback : ℕ) → Goal → Owner  -- before `udp_recv` with no callback
  waiting : (callback : ℕ) → Goal → Owner  -- in `wait_all`
  freeing : (callback : ℕ) → Goal → Owner  -- before the drop of the callback
  resetting : Goal → Owner  -- before the flags are cleared
  arming : (new : ℕ) → Owner  -- before the safe flag is set for the new callback
  registering : (new : ℕ) → Owner  -- before `udp_recv` with it
  dropped : Owner

-- Where lwIP's task stands, with the `arg` that it passes to `dispatch`.
pub data Net : Type 0 where
  idle : Net
  entered : (arg : ℕ) → Net  -- lwIP took the registered callback; before the flag is cleared
  barred : Net  -- the stop flag was seen; before the safe flag is set again
  running : (arg : ℕ) → Net  -- before the call of `func`
  finishing : (arg : ℕ) → Net  -- `func` returned; before the safe flag is set

pub data Request : Type 0 where
  -- `on_receive`, and whether the memory for the callback can be had
  on_receive : Bool → Request
  drop_socket : Request

module _ (G : EventGroup) where
  pub record System : Type 0 where
    pub flags : G.Carrier
    -- what lwIP has registered
    pub registered : Option ℕ
    -- the callbacks that are allocated, and the next number
    pub live : ℕ → Bool
    pub next : ℕ
    pub owner : Owner
    pub net : Net
    -- a callback was used that is not allocated
    pub fault : Bool

  -- After `Udp::new`.
  abbrev pub start : System
  start = record {
    flags = G.create;
    registered = none;
    live = λ c. false;
    next = 0;
    owner = outside none;
    net = idle;
    fault = false;
  }

  -- `safely_free_receive_callback` is done, or has nothing to do.
  abbrev pub after_free : Goal → Owner
  after_free drop = dropped
  after_free (replace new) = arming new

  -- `self.receive_cb.take()`
  abbrev pub take_callback : Option ℕ → Goal → Owner
  take_callback (some callback) goal = stopping callback goal
  take_callback none goal = after_free goal

  abbrev pub begin : Request → Option ℕ → System → System
  begin (on_receive true) cb s = record s {
    live = update s.live s.next true;
    next = suc s.next;
    owner = take_callback cb (replace s.next);
  }
  begin (on_receive false) cb s = s
  begin drop_socket cb s = record s { owner = take_callback cb drop }

  -- `on_receive`, from the flag for the new callback on
  abbrev pub set_ready : ℕ → System → System
  set_ready new s = record s { flags = G.set_bits callback_safe s.flags; owner = registering new }

  abbrev pub register_callback : ℕ → System → System
  register_callback new s = record s { registered = some new; owner = outside (some new) }

  -- A step of the owner; `request` is what is called next if it is outside.
  unfoldable pub step_owner : Request → Owner → System → System
  step_owner request (outside cb) s = begin request cb s
  step_owner request (stopping c goal) s = record s {
    flags = G.set_bits callback_stop s.flags;
    owner = unsetting c goal;
  }
  step_owner request (unsetting c goal) s = record s { registered = none; owner = waiting c goal }
  step_owner request (waiting c goal) s = elim (G.wait_bits callback_safe false true s.flags) [
    | some (b, flags) ↦ record s { flags = flags; owner = freeing c goal }
    | none ↦ s
  ]
  step_owner request (freeing c goal) s = record s {
    live = update s.live c false;
    owner = resetting goal;
  }
  step_owner request (resetting goal) s = record s {
    flags = G.clear_bits all_flags s.flags;
    owner = after_free goal;
  }
  step_owner request (arming new) s = set_ready new s
  step_owner request (registering new) s = register_callback new s
  step_owner request dropped s = s

  -- A use of the callback's memory.
  abbrev pub touch : ℕ → System → Bool
  touch arg s = s.fault || not (s.live arg)

  abbrev pub enter : Option ℕ → Net
  enter none = idle
  enter (some arg) = entered arg

  -- A step of lwIP's task, to which a packet has come if it is idle.
  unfoldable pub step_net : Net → System → System
  step_net idle s = record s { net = enter s.registered }
  step_net (entered arg) s = record s {
    flags = G.clear_bits callback_safe s.flags;
    net = if G.bits s.flags 1 then barred else running arg;
    fault = touch arg s;
  }
  step_net barred s = record s { flags = G.set_bits callback_safe s.flags; net = idle }
  step_net (running arg) s = record s { net = finishing arg; fault = touch arg s }
  step_net (finishing arg) s = record s {
    flags = G.set_bits callback_safe s.flags;
    net = idle;
    fault = touch arg s;
  }
