-- ===== src/Platform/Udp/Invariant.antt =====
-- What holds between the owner of a socket and lwIP's task, by where the two stand.
use bark_esp.Base.{
  ℕ, ◌<◌, ◌≡◌, refl, Option, none, some, Bool, true, false, arith, inl, inr, Option-cases,
}
use bark_esp.Extern.EventGroup.{EventGroup}
use bark_esp.Platform.Udp.{
  Goal, drop, replace, Owner, outside, stopping, unsetting, waiting, freeing, resetting, arming,
  registering, dropped, Net, idle, entered, barred, running, finishing, System, start,
}

-- The callback that lwIP's task will use.
abbrev pub used_by : Net → Option ℕ
used_by idle = none
used_by (entered arg) = some arg
used_by barred = none
used_by (running arg) = some arg
used_by (finishing arg) = some arg

abbrev pub is_busy : Net → Bool
is_busy idle = false
is_busy (entered arg) = false
is_busy barred = true
is_busy (running arg) = true
is_busy (finishing arg) = true

abbrev pub is_idle : Net → Bool
is_idle idle = true
is_idle _ = false

abbrev pub is_entered : Net → Bool
is_entered (entered arg) = true
is_entered _ = false

-- The callback that may be registered.
abbrev pub armed : Owner → Option ℕ
armed (outside cb) = cb
armed (stopping c goal) = some c
armed (unsetting c goal) = some c
armed _ = none

-- The callback that the owner has still to free.
abbrev pub held : Owner → Option ℕ
held (outside cb) = cb
held (stopping c goal) = some c
held (unsetting c goal) = some c
held (waiting c goal) = some c
held (freeing c goal) = some c
held _ = none

abbrev pub new_of : Goal → Option ℕ
new_of drop = none
new_of (replace new) = some new

-- The callback that is allocated and not yet registered.
abbrev pub coming : Owner → Option ℕ
coming (outside cb) = none
coming (stopping c goal) = new_of goal
coming (unsetting c goal) = new_of goal
coming (waiting c goal) = new_of goal
coming (freeing c goal) = new_of goal
coming (resetting goal) = new_of goal
coming (arming new) = some new
coming (registering new) = some new
coming dropped = none

-- lwIP's task is to be idle: nothing is registered, and nothing runs.
abbrev pub is_quiet : Owner → Bool
is_quiet (outside none) = true
is_quiet (freeing c goal) = true
is_quiet (resetting goal) = true
is_quiet (arming new) = true
is_quiet (registering new) = true
is_quiet dropped = true
is_quiet _ = false

-- The safe flag is set while the callback is not running.
abbrev pub is_ready : Owner → Bool
is_ready (outside (some c)) = true
is_ready (stopping c goal) = true
is_ready (unsetting c goal) = true
is_ready (waiting c goal) = true
is_ready (registering new) = true
is_ready _ = false

pub armed-held : (o : Owner) (c : ℕ) → armed o ≡ some c → held o ≡ some c
armed-held (outside cb) c h = h
armed-held (stopping d goal) c h = h
armed-held (unsetting d goal) c h = h
armed-held o c h = cc

armed-quiet : (o : Owner) → is_quiet o ≡ true → armed o ≡ none
armed-quiet (outside none) h = refl
armed-quiet (outside (some c)) h = cc
armed-quiet o h = ground arith

module _ (G : EventGroup) where
  pub record Inv (s : System G) : Type 0 where
    pub no_fault : s.fault ≡ false
    pub used_live : (a : ℕ) → used_by s.net ≡ some a → s.live a ≡ true
    pub used_held : (a : ℕ) → used_by s.net ≡ some a → held s.owner ≡ some a
    pub busy : is_busy s.net ≡ true → G.bits s.flags 0 ≡ false
    pub registered : (a : ℕ) → s.registered ≡ some a → armed s.owner ≡ some a
    pub quiet : is_quiet s.owner ≡ true → is_idle s.net ≡ true
    pub ready : is_ready s.owner ≡ true → is_busy s.net ≡ false → G.bits s.flags 0 ≡ true
    pub held_live : (c : ℕ) → held s.owner ≡ some c → s.live c ≡ true
    pub held_old : (c : ℕ) → held s.owner ≡ some c → c < s.next
    pub coming_live : (c : ℕ) → coming s.owner ≡ some c → s.live c ≡ true
    pub coming_old : (c : ℕ) → coming s.owner ≡ some c → c < s.next
    pub coming_new : (c d : ℕ) → held s.owner ≡ some c → coming s.owner ≡ some d → c < d

  pub Inv-start : Inv (start G)
  Inv-start = record {
    no_fault = refl;
    used_live = λ a e. cc;
    used_held = λ a e. cc;
    busy = λ e. cc;
    registered = λ a e. cc;
    quiet = λ e. refl;
    ready = λ e. cc;
    held_live = λ c e. cc;
    held_old = λ c e. cc;
    coming_live = λ c e. cc;
    coming_old = λ c e. cc;
    coming_new = λ c d e. cc;
  }

  pub quiet-registered : (s : System G) → Inv s → is_quiet s.owner ≡ true → s.registered ≡ none
  quiet-registered s v h = elim (Option-cases s.registered) [
    | inl e ↦ e
    | inr (a, e) ↦ cc (v.registered a e, armed-quiet s.owner h)
  ]
