-- ===== src/Platform/Udp/OwnerSteps.antt =====
-- Each step of the owner keeps the invariant, unless `dispatch` is entered.
use bark_esp.Base.{
  ℕ, ◌≡◌, refl, Option, none, some, true, false, arith, inl, inr, Bool-cases, Option-cases,
}
use bark_esp.Extern.EventGroup.{Bits, EventGroup}
use bark_esp.Platform.Udp.{
  callback_safe, callback_stop, all_flags, Goal, drop, replace, Owner, outside, stopping, unsetting,
  waiting, freeing, resetting, arming, registering, dropped, Request, on_receive, drop_socket,
  System, begin, step_owner,
}
use bark_esp.Platform.Udp.Invariant.{is_entered, Inv}

module _ (G : EventGroup) where
  -- What the end of a wait says.
  waited :
      (s : System G) (b : Bits) (flags : G.Carrier)
      → G.wait_bits callback_safe false true s.flags ≡ some (b, flags)
      → (G.bits s.flags 0 ≡ true) × (flags ≡ s.flags)
  waited s b flags e = elim (Bool-cases (G.bits s.flags 0)) [
    | inr off ↦ cc (G.wait_all-blocked callback_safe false s.flags 0 (omega arith) refl off)
    | inl on ↦
        let ready = G.wait_all-ready callback_safe false s.flags (λ i h. ground (arith, on)) in
        (on, ground (arith, ready))
  ]

  Inv-begin :
      (r : Request) (cb : Option ℕ) (s : System G)
      → s.owner ≡ outside cb
      → Inv G s
      → Inv G (begin G r cb s)
  Inv-begin (on_receive true) none s e v = record {
    no_fault = v.no_fault;
    used_live = λ a h. ground (arith, v.used_live a, v.quiet);
    used_held = λ a h. ground (arith, v.used_held a, v.quiet);
    busy = λ h. ground (arith, v.busy, v.quiet);
    registered = λ a h. ground (arith, v.registered a);
    quiet = λ h. ground (arith, v.quiet);
    ready = λ h k. ground (arith, v.ready);
    held_live = λ d h. ground (arith, v.held_live d);
    held_old = λ d h. ground (arith, v.held_old d);
    coming_live = λ d h. ground (arith, v.coming_live d);
    coming_old = λ d h. ground (arith, v.coming_old d);
    coming_new = λ d f h k. ground (arith, v.coming_new d f);
  }
  Inv-begin (on_receive true) (some c) s e v = record {
    no_fault = v.no_fault;
    used_live = λ a h. ground (arith, v.used_live a, v.quiet);
    used_held = λ a h. ground (arith, v.used_held a, v.quiet);
    busy = λ h. ground (arith, v.busy, v.quiet);
    registered = λ a h. ground (arith, v.registered a);
    quiet = λ h. ground (arith, v.quiet);
    ready = λ h k. ground (arith, v.ready);
    held_live = λ d h. ground (arith, v.held_live d);
    held_old = λ d h. ground (arith, v.held_old d);
    coming_live = λ d h. ground (arith, v.coming_live d);
    coming_old = λ d h. ground (arith, v.coming_old d);
    coming_new = λ d f h k. ground (arith, v.coming_new d f, v.held_old d);
  }
  Inv-begin drop_socket none s e v = record {
    no_fault = v.no_fault;
    used_live = λ a h. ground (arith, v.used_live a, v.quiet);
    used_held = λ a h. ground (arith, v.used_held a, v.quiet);
    busy = λ h. ground (arith, v.busy, v.quiet);
    registered = λ a h. ground (arith, v.registered a);
    quiet = λ h. ground (arith, v.quiet);
    ready = λ h k. ground (arith, v.ready);
    held_live = λ d h. ground (arith, v.held_live d);
    held_old = λ d h. ground (arith, v.held_old d);
    coming_live = λ d h. ground (arith, v.coming_live d);
    coming_old = λ d h. ground (arith, v.coming_old d);
    coming_new = λ d f h k. ground (arith, v.coming_new d f);
  }
  Inv-begin drop_socket (some c) s e v = record {
    no_fault = v.no_fault;
    used_live = λ a h. ground (arith, v.used_live a, v.quiet);
    used_held = λ a h. ground (arith, v.used_held a, v.quiet);
    busy = λ h. ground (arith, v.busy, v.quiet);
    registered = λ a h. ground (arith, v.registered a);
    quiet = λ h. ground (arith, v.quiet);
    ready = λ h k. ground (arith, v.ready);
    held_live = λ d h. ground (arith, v.held_live d);
    held_old = λ d h. ground (arith, v.held_old d);
    coming_live = λ d h. ground (arith, v.coming_live d);
    coming_old = λ d h. ground (arith, v.coming_old d);
    coming_new = λ d f h k. ground (arith, v.coming_new d f);
  }
  Inv-begin (on_receive false) cb s e v = v

  Inv-waited :
      (b : Bits) (c : ℕ) (flags : G.Carrier) (goal : Goal) (s : System G)
      → s.owner ≡ waiting c goal
      → is_entered s.net ≡ false
      → (G.bits s.flags 0 ≡ true) × (flags ≡ s.flags)
      → Inv G s
      → Inv G (record s { flags = flags; owner = freeing c goal })
  Inv-waited b c flags goal s e n w v = record {
    no_fault = v.no_fault;
    used_live = λ a h. ground (arith, v.used_live a, v.quiet, w);
    used_held = λ a h. ground (arith, v.used_held a, v.quiet, w);
    busy = λ h. ground (arith, v.busy, v.quiet, w);
    registered = λ a h. ground (arith, v.registered a, w);
    quiet = λ h. ground (arith, v.quiet, w);
    ready = λ h k. ground (arith, v.ready, w);
    held_live = λ d h. ground (arith, v.held_live d, w);
    held_old = λ d h. ground (arith, v.held_old d, w);
    coming_live = λ d h. ground (arith, v.coming_live d, w);
    coming_old = λ d h. ground (arith, v.coming_old d, w);
    coming_new = λ d f h k. ground (arith, v.coming_new d f, w);
  }

  pub Inv-owner :
      (r : Request) (o : Owner) (s : System G)
      → s.owner ≡ o
      → is_entered s.net ≡ false
      → Inv G s
      → Inv G (step_owner G r o s)
  unfolding step_owner
  Inv-owner r (stopping c goal) s e n v = record {
    no_fault = v.no_fault;
    used_live = v.used_live;
    used_held = λ a h. ground (arith, v.used_held a);
    busy = λ h. ground (arith, v.busy, G.bits-set_bits callback_stop s.flags 0);
    registered = λ a h. ground (arith, v.registered a);
    quiet = λ h. cc;
    ready = λ h k. ground (arith, v.ready, G.bits-set_bits callback_stop s.flags 0);
    held_live = λ d h. ground (arith, v.held_live d);
    held_old = λ d h. ground (arith, v.held_old d);
    coming_live = λ d h. ground (arith, v.coming_live d);
    coming_old = λ d h. ground (arith, v.coming_old d);
    coming_new = λ d f h k. ground (arith, v.coming_new d f);
  }
  Inv-owner r (outside cb) s e n v = Inv-begin r cb s e v
  Inv-owner r (unsetting c goal) s e n v = record {
    no_fault = v.no_fault;
    used_live = λ a h. ground (arith, v.used_live a, v.quiet);
    used_held = λ a h. ground (arith, v.used_held a, v.quiet);
    busy = λ h. ground (arith, v.busy, v.quiet);
    registered = λ a h. cc;
    quiet = λ h. ground (arith, v.quiet);
    ready = λ h k. ground (arith, v.ready);
    held_live = λ d h. ground (arith, v.held_live d);
    held_old = λ d h. ground (arith, v.held_old d);
    coming_live = λ d h. ground (arith, v.coming_live d);
    coming_old = λ d h. ground (arith, v.coming_old d);
    coming_new = λ d f h k. ground (arith, v.coming_new d f);
  }
  Inv-owner r (waiting c goal) s e n v =
      elim (Option-cases (G.wait_bits callback_safe false true s.flags)) [
        | inl on ↦ rw (on, step_owner) v
        | inr ((b, flags), over) ↦
            rw (over, step_owner) (Inv-waited b c flags goal s e n (waited s b flags over) v)
      ]
  Inv-owner r (freeing c goal) s e n v = record {
    no_fault = v.no_fault;
    used_live = λ a h. ground (arith, v.used_live a, v.quiet);
    used_held = λ a h. ground (arith, v.used_held a, v.quiet);
    busy = λ h. ground (arith, v.busy, v.quiet);
    registered = λ a h. ground (arith, v.registered a);
    quiet = λ h. ground (arith, v.quiet);
    ready = λ h k. ground (arith, v.ready);
    held_live = λ d h. ground (arith, v.held_live d);
    held_old = λ d h. ground (arith, v.held_old d);
    coming_live = λ d h. ground (arith, v.coming_live d, v.coming_new c d);
    coming_old = λ d h. ground (arith, v.coming_old d);
    coming_new = λ d f h k. ground (arith, v.coming_new d f);
  }
  Inv-owner r (resetting drop) s e n v = record {
    no_fault = v.no_fault;
    used_live =
        λ a h. ground (arith, v.used_live a, v.quiet, G.bits-clear_bits all_flags s.flags 0);
    used_held =
        λ a h. ground (arith, v.used_held a, v.quiet, G.bits-clear_bits all_flags s.flags 0);
    busy = λ h. ground (arith, v.busy, v.quiet, G.bits-clear_bits all_flags s.flags 0);
    registered = λ a h. ground (arith, v.registered a, G.bits-clear_bits all_flags s.flags 0);
    quiet = λ h. ground (arith, v.quiet, G.bits-clear_bits all_flags s.flags 0);
    ready = λ h k. ground (arith, v.ready, G.bits-clear_bits all_flags s.flags 0);
    held_live = λ d h. ground (arith, v.held_live d, G.bits-clear_bits all_flags s.flags 0);
    held_old = λ d h. ground (arith, v.held_old d, G.bits-clear_bits all_flags s.flags 0);
    coming_live = λ d h. ground (arith, v.coming_live d, G.bits-clear_bits all_flags s.flags 0);
    coming_old = λ d h. ground (arith, v.coming_old d, G.bits-clear_bits all_flags s.flags 0);
    coming_new = λ d f h k. ground (arith, v.coming_new d f, G.bits-clear_bits all_flags s.flags 0);
  }
  Inv-owner r (resetting (replace new)) s e n v = record {
    no_fault = v.no_fault;
    used_live =
        λ a h. ground (arith, v.used_live a, v.quiet, G.bits-clear_bits all_flags s.flags 0);
    used_held =
        λ a h. ground (arith, v.used_held a, v.quiet, G.bits-clear_bits all_flags s.flags 0);
    busy = λ h. ground (arith, v.busy, v.quiet, G.bits-clear_bits all_flags s.flags 0);
    registered = λ a h. ground (arith, v.registered a, G.bits-clear_bits all_flags s.flags 0);
    quiet = λ h. ground (arith, v.quiet, G.bits-clear_bits all_flags s.flags 0);
    ready = λ h k. ground (arith, v.ready, G.bits-clear_bits all_flags s.flags 0);
    held_live = λ d h. ground (arith, v.held_live d, G.bits-clear_bits all_flags s.flags 0);
    held_old = λ d h. ground (arith, v.held_old d, G.bits-clear_bits all_flags s.flags 0);
    coming_live = λ d h. ground (arith, v.coming_live d, G.bits-clear_bits all_flags s.flags 0);
    coming_old = λ d h. ground (arith, v.coming_old d, G.bits-clear_bits all_flags s.flags 0);
    coming_new = λ d f h k. ground (arith, v.coming_new d f, G.bits-clear_bits all_flags s.flags 0);
  }
  Inv-owner r (arming new) s e n v = record {
    no_fault = v.no_fault;
    used_live =
        λ a h. ground (arith, v.used_live a, v.quiet, G.bits-set_bits callback_safe s.flags 0);
    used_held =
        λ a h. ground (arith, v.used_held a, v.quiet, G.bits-set_bits callback_safe s.flags 0);
    busy = λ h. ground (arith, v.busy, v.quiet, G.bits-set_bits callback_safe s.flags 0);
    registered = λ a h. ground (arith, v.registered a, G.bits-set_bits callback_safe s.flags 0);
    quiet = λ h. ground (arith, v.quiet, G.bits-set_bits callback_safe s.flags 0);
    ready = λ h k. ground (arith, v.ready, G.bits-set_bits callback_safe s.flags 0);
    held_live = λ d h. ground (arith, v.held_live d, G.bits-set_bits callback_safe s.flags 0);
    held_old = λ d h. ground (arith, v.held_old d, G.bits-set_bits callback_safe s.flags 0);
    coming_live = λ d h. ground (arith, v.coming_live d, G.bits-set_bits callback_safe s.flags 0);
    coming_old = λ d h. ground (arith, v.coming_old d, G.bits-set_bits callback_safe s.flags 0);
    coming_new =
        λ d f h k. ground (arith, v.coming_new d f, G.bits-set_bits callback_safe s.flags 0);
  }
  Inv-owner r (registering new) s e n v = record {
    no_fault = v.no_fault;
    used_live = λ a h. ground (arith, v.used_live a, v.quiet);
    used_held = λ a h. ground (arith, v.used_held a, v.quiet);
    busy = λ h. ground (arith, v.busy, v.quiet);
    registered = λ a h. ground (arith, v.registered a);
    quiet = λ h. ground (arith, v.quiet);
    ready = λ h k. ground (arith, v.ready);
    held_live = λ d h. ground (arith, v.coming_live d);
    held_old = λ d h. ground (arith, v.coming_old d);
    coming_live = λ d h. ground (arith, v.coming_live d);
    coming_old = λ d h. ground (arith, v.coming_old d);
    coming_new = λ d f h k. ground (arith, v.coming_new d f);
  }
  Inv-owner r dropped s e n v = v
