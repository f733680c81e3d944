-- ===== src/Platform/Udp/Race.antt =====
-- What the flags do not cover: lwIP's task between its read of the registered callback and the
-- first step of `dispatch`.
use bark_esp.Base.{ℕ, ◌≡◌, refl, ap, ◌∙◌, none, some, true, false, arith}
use bark_esp.Extern.EventGroup.{EventGroup}
use bark_esp.Task.Registry.TaskSlot.{update}
use bark_esp.Platform.Udp.{
  callback_safe, callback_stop, drop, outside, waiting, freeing, resetting, idle, entered,
  drop_socket, System, step_owner, enter, step_net,
}

module _ (G : EventGroup) where
  -- The next step of each of the two.
  abbrev pub owner_step : System G → System G
  owner_step s = step_owner G drop_socket s.owner s

  abbrev pub net_step : System G → System G
  net_step s = step_net G s.net s

  -- The owner's steps from the start of a drop up to the free.
  abbrev pub drop_callback : System G → System G
  drop_callback s = owner_step (owner_step (owner_step (owner_step (owner_step s))))

  module _ (c : ℕ) (s : System G) (o : s.owner ≡ outside (some c)) (n : s.net ≡ idle)
      (reg : s.registered ≡ some c) (safe : G.bits s.flags 0 ≡ true) where
    abbrev called : System G
    called = record s { net = entered c }

    abbrev stopped : G.Carrier
    stopped = G.set_bits callback_stop s.flags

    abbrev freed : System G
    freed = record s {
      net = entered c;
      flags = stopped;
      registered = none;
      live = update s.live c false;
      owner = resetting drop;
    }

    called_lem : net_step s ≡ called
    unfolding step_net
    called_lem = ap (λ q. step_net G q s) n ∙ ap (λ q. record s { net = enter G q }) reg

    -- in `wait_all`
    abbrev held_up : System G
    held_up = record s {
      net = entered c;
      flags = stopped;
      registered = none;
      owner = waiting c drop;
    }

    wait_ends : owner_step held_up ≡ record held_up { owner = freeing c drop }
    unfolding step_owner
    wait_ends =
        rw
          (
            G.wait_all-ready callback_safe false stopped
                (λ i h. ground (arith, safe, G.bits-set_bits callback_stop s.flags 0)),
            step_owner,
          )
          refl

    freed_lem : drop_callback called ≡ freed
    unfolding step_owner
    freed_lem =
        ap
          (λ q.
            owner_step (owner_step (owner_step (owner_step (step_owner G drop_socket q called)))))
          o
        ∙ ap owner_step wait_ends

  -- When a packet comes to a socket with a callback that is safe, and the socket is dropped after
  -- lwIP took the callback and before `dispatch` cleared the flag, the wait does not hold the drop
  -- up: the callback is freed, and the next step of `dispatch` uses it.
  pub drop_races :
      (c : ℕ) (s : System G)
      → s.owner ≡ outside (some c)
      → s.net ≡ idle
      → s.registered ≡ some c
      → G.bits s.flags 0 ≡ true
      → let s' = drop_callback (net_step s) in (s'.live c ≡ false) × ((net_step s').fault ≡ true)
  unfolding step_net
  drop_races c s o n reg safe =
      rw (ap drop_callback (called_lem c s o n reg safe) ∙ freed_lem c s o n reg safe)
        (ground arith, ground arith)
