-- ===== src/Platform/Wifi/Setup.antt =====
-- Which calls the set-up comes to.
use bark_esp.Base.{
  ℕ, zero, suc, ◌-◌, ◌≡◌, ◌↔◌, ◌⊎◌, refl, ap, List, [], ◌∷◌, ◌++◌, Bool, true, arith, length, take,
  min, replicate, blit,
}
use native.Mathlib.Nat.{zero-sub, sub-zero, suc-sub-suc}
use bark_esp.Platform.Wifi.{
  Call, netif_init, create_default_wifi_sta, wifi_init, wifi_start, attach_wifi_event,
  attach_ip_event, wifi_connect, configure, init, fixed,
}

-- A call is in a list of calls.
abbrev pub Made : Call → List Call → Type 0
Made call [] = ⊥
Made call (c ∷ cs) = (c ≡ call) ⊎ Made call cs

-- The calls that have to work before the connection is tried.
abbrev pub Attached : (Call → Bool) → Type 0
Attached works =
    (works netif_init ≡ true)
    × (works create_default_wifi_sta ≡ true)
    × (works wifi_init ≡ true)
    × (works wifi_start ≡ true)
    × (works attach_wifi_event ≡ true)
    × (works attach_ip_event ≡ true)

-- The set-up tries to connect exactly if the event handlers are attached and all that came before
-- worked, whether or not it could be configured.
connect_iff : (works : Call → Bool) → Made wifi_connect (init works) ↔ Attached works
unfolding init configure
connect_iff works = ground arith

-- A text is cut to the length of the array, or filled up with zeros.
pub fixed_lem : (n : ℕ) (s : List ℕ) → fixed n s ≡ take n s ++ replicate (n - length s) 0
unfolding fixed
fixed_lem n s = filled n s (min n (length s)) refl
  where
    filled :
        (n : ℕ) (s : List ℕ) (k : ℕ)
        → k ≡ min n (length s)
        → blit (replicate n 0) 0 (take k s) ≡ take n s ++ replicate (n - length s) 0
    filled zero [] zero e = refl
    filled zero (x ∷ s) zero e = rw (zero-sub (length (x ∷ s))) refl
    filled zero s (suc k) e = absurd (omega arith)
    filled (suc n) [] zero e = rw sub-zero refl
    filled (suc n) [] (suc k) e = absurd (omega arith)
    filled (suc n) (x ∷ s) zero e = absurd (omega arith)
    filled (suc n) (x ∷ s) (suc k) e = rw suc-sub-suc (ap (λ l. x ∷ l) (filled n s k (omega arith)))
