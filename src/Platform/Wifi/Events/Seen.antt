-- ===== src/Platform/Wifi/Events/Seen.antt =====
-- The platform task acts on the last state, however events come.
use bark_esp.Base.{suc, ◌≡◌, refl, ap, ◌∙◌, true, false, arith, Bool-cases, inl, inr}
use bark_esp.Extern.EventGroup.{EventGroup}
use bark_esp.Platform.Wifi.Events.{
  Event, sta_disconnected, sta_got_ip, wifi, all_events, Platform, waiting, loading, Handler, ready,
  raising, new_state, System, step_handler, count_start, step_platform, Reach, here, handler_moves,
  platform_moves,
}

module _ (G : EventGroup) where
  -- With nothing raised and nobody on the way, the last state was acted on.
  abbrev Settled : System G → Type 0
  Settled s = s.handler ≡ ready → s.platform ≡ waiting → G.bits s.event 0 ≡ false → s.seen ≡ s.state

  Settled-handler :
      (e : Event) (h : Handler) (s : System G)
      → s.handler ≡ h
      → Settled s
      → Settled (step_handler G e h s)
  unfolding step_handler new_state
  Settled-handler e ready s at v r w b = ground arith
  Settled-handler e raising s at v r w b = cc (G.bits-set_bits wifi s.event 0)

  waits-off : (s : System G) → G.bits s.event 0 ≡ false → step_platform G waiting s ≡ s
  unfolding step_platform
  waits-off s off =
      rw (G.wait_any-blocked all_events true s.event (λ i h. ground (arith, off)), step_platform)
        refl

  waits-on :
      (s : System G)
      → G.bits s.event 0 ≡ true
      → step_platform G waiting s
        ≡ record s { event = G.clear_bits all_events s.event; platform = loading }
  unfolding step_platform
  waits-on s on =
      rw (G.wait_any-ready all_events true s.event 0 (omega arith) refl on, step_platform)
        (ground arith)

  Settled-platform :
      (p : Platform) (s : System G) → s.platform ≡ p → Settled s → Settled (step_platform G p s)
  unfolding step_platform
  Settled-platform waiting s at v = elim (Bool-cases (G.bits s.event 0)) [
    | inl on ↦ rw (waits-on s on) (λ r w b. cc)
    | inr off ↦ rw (waits-off s off) v
  ]
  Settled-platform loading s at v = λ r w b. refl

  Reach-Settled : {s : System G} → Reach G s → Settled s
  Reach-Settled here = λ r w b. refl
  Reach-Settled (handler_moves {s} r e) = Settled-handler e s.handler s refl (Reach-Settled r)
  Reach-Settled (platform_moves {s} r) = Settled-platform s.platform s refl (Reach-Settled r)

  abbrev pub platform_step : System G → System G
  platform_step s = step_platform G s.platform s

  -- In every order of the events and of the steps of the two tasks: when no handler is on its way,
  -- no event is raised and the platform task waits, the state it last acted on is the state that
  -- was stored last. While an event is raised its wait ends, and two steps bring it there.
  pub seen-last :
      {s : System G}
      → Reach G s
      → (s.handler ≡ ready → s.platform ≡ waiting → G.bits s.event 0 ≡ false → s.seen ≡ s.state)
        × (s.platform ≡ waiting
            → G.bits s.event 0 ≡ true
            → let s' = platform_step (platform_step s) in
              (s'.seen ≡ s.state)
              × (s'.platform ≡ waiting)
              × (G.bits s'.event 0 ≡ false)
              × (s'.state ≡ s.state))
  unfolding step_platform
  seen-last {s} r = (
    Reach-Settled r,
    λ w on.
        rw (ap (λ p. step_platform G p s) w ∙ waits-on s on)
          (refl, refl, G.bits-clear_bits all_events s.event 0, refl),
  )

  abbrev pub raise : Event → System G → System G
  raise e s = step_handler G e raising (step_handler G e ready s)

  abbrev pub handle : System G → System G
  handle s = step_platform G loading (step_platform G waiting s)

  handle-starts :
      (s : System G) → G.bits s.event 0 ≡ true → (handle s).starts ≡ count_start G s.state s.starts
  unfolding step_platform
  handle-starts s on = ap (λ t. (step_platform G loading t).starts) (waits-on s on)

  -- The connection is lost and comes back, each handled by the platform task before the next.
  abbrev pub reconnect : System G → System G
  reconnect s = handle (raise sta_got_ip (handle (raise sta_disconnected s)))

  -- Nothing ends the application when the connection is lost, and each return of the connection
  -- starts it once more.
  reconnect-starts : (s : System G) → (reconnect s).starts ≡ suc s.starts
  unfolding step_handler new_state
  reconnect-starts s =
      handle-starts (raise sta_got_ip (handle (raise sta_disconnected s)))
        (G.bits-set_bits wifi (handle (raise sta_disconnected s)).event 0)
      ∙ ap suc (handle-starts (raise sta_disconnected s) (G.bits-set_bits wifi s.event 0))
