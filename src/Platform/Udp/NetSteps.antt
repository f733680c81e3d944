-- ===== src/Platform/Udp/NetSteps.antt =====
-- Each step of lwIP's task keeps the invariant.
use bark_esp.Base.{◌≡◌, refl, arith}
use bark_esp.Extern.EventGroup.{EventGroup}
use bark_esp.Platform.Udp.{
  callback_safe, Net, idle, entered, barred, running, finishing, System, step_net,
}
use bark_esp.Platform.Udp.Invariant.{armed-held, Inv, quiet-registered}

module _ (G : EventGroup) where
  pub Inv-net : (n : Net) (s : System G) → s.net ≡ n → Inv G s → Inv G (step_net G n s)
  unfolding step_net
  Inv-net idle s e v = record {
    no_fault = v.no_fault;
    used_live = λ a h. ground (arith, v.registered a, v.held_live a, armed-held s.owner a);
    used_held = λ a h. ground (arith, v.registered a, armed-held s.owner a);
    busy = λ h. ground arith;
    registered = v.registered;
    quiet = λ h. ground (arith, v.quiet, quiet-registered G s v);
    ready = λ h k. ground (arith, v.ready);
    held_live = v.held_live;
    held_old = v.held_old;
    coming_live = v.coming_live;
    coming_old = v.coming_old;
    coming_new = v.coming_new;
  }
  Inv-net (entered arg) s e v = record {
    no_fault = ground (arith, v.used_live arg, v.no_fault);
    used_live = λ a h. ground (arith, v.used_live a);
    used_held = λ a h. ground (arith, v.used_held a);
    busy = λ h. G.bits-clear_bits callback_safe s.flags 0;
    registered = v.registered;
    quiet = λ h. ground (arith, v.quiet);
    ready = λ h k. ground arith;
    held_live = v.held_live;
    held_old = v.held_old;
    coming_live = v.coming_live;
    coming_old = v.coming_old;
    coming_new = v.coming_new;
  }
  Inv-net barred s e v = record {
    no_fault = v.no_fault;
    used_live = λ a h. cc;
    used_held = λ a h. cc;
    busy = λ h. cc;
    registered = v.registered;
    quiet = λ h. refl;
    ready = λ h k. G.bits-set_bits callback_safe s.flags 0;
    held_live = v.held_live;
    held_old = v.held_old;
    coming_live = v.coming_live;
    coming_old = v.coming_old;
    coming_new = v.coming_new;
  }
  Inv-net (running arg) s e v = record {
    no_fault = ground (arith, v.used_live arg, v.no_fault);
    used_live = λ a h. ground (arith, v.used_live a);
    used_held = λ a h. ground (arith, v.used_held a);
    busy = λ h. ground (arith, v.busy);
    registered = v.registered;
    quiet = λ h. ground (arith, v.quiet);
    ready = λ h k. ground arith;
    held_live = v.held_live;
    held_old = v.held_old;
    coming_live = v.coming_live;
    coming_old = v.coming_old;
    coming_new = v.coming_new;
  }
  Inv-net (finishing arg) s e v = record {
    no_fault = ground (arith, v.used_live arg, v.no_fault);
    used_live = λ a h. cc;
    used_held = λ a h. cc;
    busy = λ h. cc;
    registered = v.registered;
    quiet = λ h. refl;
    ready = λ h k. G.bits-set_bits callback_safe s.flags 0;
    held_live = v.held_live;
    held_old = v.held_old;
    coming_live = v.coming_live;
    coming_old = v.coming_old;
    coming_new = v.coming_new;
  }
