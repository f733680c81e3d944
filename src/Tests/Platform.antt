-- ===== src/Tests/Platform.antt =====
-- The sockets and the WiFi of src/platform/, on a concrete event group.
use bark_esp.Base.{ℕ, ◌≡◌, refl, none, some, true, false}
use bark_esp.Extern.EventGroup.{bits_group}
use bark_esp.Platform.Udp.{
  System, Request, Goal, waiting, freeing, idle, on_receive, drop_socket, start, step_owner,
  step_net,
}
use bark_esp.Platform.Udp.Quiesce.{Reach, here, owner_moves, net_moves, quiesce_safe}
use bark_esp.Platform.Udp.Race.{drop_callback, net_step, drop_races}

-- A callback is set: it is armed and registered.
abbrev listening : System bits_group
listening =
    let s = step_owner bits_group (on_receive true) (start bits_group).owner (start bits_group) in
    let s = step_owner bits_group drop_socket s.owner s in
    step_owner bits_group drop_socket s.owner s

listening_lem : listening.registered ≡ some 0
unfolding step_owner
listening_lem = refl

listening-Reach : Reach bits_group listening
unfolding step_owner
listening-Reach =
    owner_moves (owner_moves (owner_moves here (on_receive true) refl) drop_socket refl) drop_socket
      refl

-- A packet is being dispatched.
abbrev dispatching : System bits_group
dispatching = step_net bits_group listening.net listening

-- and lwIP's task has looked at the stop flag
abbrev in_callback : System bits_group
in_callback = step_net bits_group dispatching.net dispatching

quiesce_safe_example :
    (in_callback.fault ≡ false)
    × ((c : ℕ) (goal : Goal)
        → in_callback.owner ≡ freeing c goal
        → (in_callback.net ≡ idle) × (in_callback.registered ≡ none) × (in_callback.live c ≡ true))
    × ((c : ℕ) (goal : Goal) (r : Request)
        → in_callback.owner ≡ waiting c goal
        → in_callback.net ≡ idle
        → (step_owner bits_group r in_callback.owner in_callback).owner ≡ freeing c goal)
quiesce_safe_example = quiesce_safe bits_group (net_moves (net_moves listening-Reach))

drop_races_example :
    let s' = drop_callback bits_group (net_step bits_group listening) in
    (s'.live 0 ≡ false) × ((net_step bits_group s').fault ≡ true)
unfolding step_owner
drop_races_example = drop_races bits_group 0 listening refl refl refl refl
