-- ===== src/Platform/Udp/Quiesce.antt =====
-- A callback is not freed under lwIP, as long as the owner makes no step between lwIP's read of the
-- registered callback and the first step of `dispatch`.
use bark_esp.Base.{ℕ, ◌≡◌, refl, ap, ◌∙◌, none, true, false, arith}
use bark_esp.Extern.EventGroup.{EventGroup}
use bark_esp.Platform.Udp.{
  callback_safe, Goal, waiting, freeing, idle, Request, System, start, step_owner, step_net,
}
use bark_esp.Platform.Udp.Invariant.{is_entered, Inv, Inv-start, quiet-registered}
use bark_esp.Platform.Udp.NetSteps.{Inv-net}
use bark_esp.Platform.Udp.OwnerSteps.{Inv-owner}

module _ (G : EventGroup) where
  -- The steps of the two, where the owner waits while `dispatch` is entered.
  pub data Reach : System G → Type 0 where
    here : Reach (start G)
    owner_moves :
        {s : System G}
        → Reach s
        → (r : Request) → is_entered s.net ≡ false
        → Reach (step_owner G r s.owner s)
    net_moves : {s : System G} → Reach s → Reach (step_net G s.net s)

  Reach-Inv : {s : System G} → Reach s → Inv G s
  Reach-Inv here = Inv-start G
  Reach-Inv (owner_moves {s} r q n) = Inv-owner G q s.owner s refl n (Reach-Inv r)
  Reach-Inv (net_moves {s} r) = Inv-net G s.net s refl (Reach-Inv r)

  ready_waits :
      (r : Request) (c : ℕ) (goal : Goal) (s : System G)
      → G.bits s.flags 0 ≡ true
      → (step_owner G r (waiting c goal) s).owner ≡ freeing c goal
  unfolding step_owner
  ready_waits r c goal s on =
      rw (G.wait_all-ready callback_safe false s.flags (λ i h. ground (arith, on)), step_owner) refl

  -- As long as the owner does not move while `dispatch` is entered, in every order of the other
  -- steps and with any number of callbacks set, replaced and dropped: no callback is used that is
  -- not allocated; a callback is freed while it is allocated, unregistered and lwIP's task is out
  -- of `dispatch`; and the wait before that ends once lwIP's task is.
  pub quiesce_safe :
      {s : System G}
      → Reach s
      → (s.fault ≡ false)
        × ((c : ℕ) (goal : Goal)
            → s.owner ≡ freeing c goal
            → (s.net ≡ idle) × (s.registered ≡ none) × (s.live c ≡ true))
        × ((c : ℕ) (goal : Goal) (r : Request)
            → s.owner ≡ waiting c goal
            → s.net ≡ idle
            → (step_owner G r s.owner s).owner ≡ freeing c goal)
  quiesce_safe {s} r =
      let v = Reach-Inv r in
      (
        v.no_fault,
        λ c goal e. (
          ground (arith, v.quiet),
          quiet-registered G s v (ground arith),
          ground (arith, v.held_live c),
        ),
        λ c goal r e n.
            ap (λ o. (step_owner G r o s).owner) e
            ∙ ready_waits r c goal s (ground (arith, v.ready)),
      )
