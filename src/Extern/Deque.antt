-- ===== src/Extern/Deque.antt =====
-- `heapless::Deque<T, N>`, as src/app/queue.rs uses it.
use bark_esp.Base.{
  ℕ, ◌≤◌, ◌<◌, ◌≡◌, refl, Option, none, some, List, [], ◌∷◌, ◌++◌, length, set, arith,
  length-append, length-set, append-nil, dec_lt, ap, sym, ◌∙◌,
}
use Prim.Native.Nat.{zero-le}
use native.Mathlib.Bridge.{le_prop}
use mathlib.Core.Logic.{dite, dif_pos}

pub record Deque (A : Type 0) (N : ℕ) : Type 1 where
  pub Carrier : Type 0
  pub default : Carrier
  pub len : Carrier → ℕ
  -- the two slices of `as_mut_slices`, read
  pub slices : Carrier → List A × List A
  -- an assignment through the first slice, and through the second
  pub write_left : ℕ → A → Carrier → Carrier
  pub write_right : ℕ → A → Carrier → Carrier
  -- `none` for the `Err` of a full deque
  pub push_back : A → Carrier → Option Carrier
  pub pop_front : Carrier → Option A × Carrier
  pub default_lem : (slices default).0 ++ (slices default).1 ≡ []
  pub len_lem : (d : Carrier) → len d ≡ length ((slices d).0 ++ (slices d).1)
  pub len-le : (d : Carrier) → len d ≤ N
  pub write_left_lem :
      (i : ℕ) (a : A) (d : Carrier)
      → i < length (slices d).0
      → slices (write_left i a d) ≡ (set (slices d).0 i a, (slices d).1)
  pub write_right_lem :
      (i : ℕ) (a : A) (d : Carrier)
      → i < length (slices d).1
      → slices (write_right i a d) ≡ ((slices d).0, set (slices d).1 i a)
  pub push_back_lem :
      (a : A) (d : Carrier)
      → len d < N
      → (d' : Carrier) × (push_back a d ≡ some d')
        × ((slices d').0 ++ (slices d').1 ≡ ((slices d).0 ++ (slices d).1) ++ (a ∷ []))
  pub pop_front-nil : (d : Carrier) → (slices d).0 ++ (slices d).1 ≡ [] → pop_front d ≡ (none, d)
  pub pop_front-cons :
      (d : Carrier) (a : A) (rest : List A)
      → (slices d).0 ++ (slices d).1 ≡ a ∷ rest
      → ((pop_front d).0 ≡ some a)
        × ((slices (pop_front d).1).0 ++ (slices (pop_front d).1).1 ≡ rest)

-- A bounded list is such a deque, all of it in the first slice.
module _ (A : Type 0) (N : ℕ) where
  pub push-le : (a : A) (xs : List A) → length xs < N → length (xs ++ a ∷ []) ≤ N
  push-le a xs h = omega (arith, length-append xs (a ∷ []))

  pub set-le : (i : ℕ) (a : A) (xs : List A) → length xs ≤ N → length (set xs i a) ≤ N
  set-le i a xs h = omega (arith, length-set xs i a)

  abbrev pub Bounded : Type 0
  Bounded = (xs : List A) × (length xs ≤ N)

  abbrev pub push : A → Bounded → Option Bounded
  push a (xs, h) =
      dite (dec_lt (length xs) N) (λ lt. some (xs ++ a ∷ [], push-le a xs lt)) (λ _. none)

  abbrev pub pop : Bounded → Option A × Bounded
  pop ([], h) = (none, ([], h))
  pop (x ∷ xs, h) = (some x, (xs, omega arith))

  abbrev pub assign : ℕ → A → Bounded → Bounded
  assign i a (xs, h) = (set xs i a, set-le i a xs h)

  pub push_lem :
      (a : A) (d : Bounded)
      → length d.0 < N
      → (d' : Bounded) × (push a d ≡ some d') × (d'.0 ++ [] ≡ (d.0 ++ []) ++ (a ∷ []))
  push_lem a (xs, h) lt = (
    (xs ++ a ∷ [], push-le a xs lt),
    dif_pos (dec_lt (length xs) N) le_prop lt _ _,
    append-nil (xs ++ a ∷ []) ∙ ap (λ t. t ++ a ∷ []) (sym (append-nil xs)),
  )

  pub pop-nil : (d : Bounded) → d.0 ++ [] ≡ [] → pop d ≡ (none, d)
  pop-nil ([], h) e = refl
  pop-nil (x ∷ xs, h) e = cc

  pub pop-cons :
      (d : Bounded) (a : A) (rest : List A)
      → d.0 ++ [] ≡ a ∷ rest
      → ((pop d).0 ≡ some a) × ((pop d).1.0 ++ [] ≡ rest)
  pop-cons ([], h) a rest e = cc
  pop-cons (x ∷ xs, h) a rest e = ground arith

  abbrev pub list_deque : Deque A N
  list_deque = record {
    Carrier = Bounded;
    default = ([], zero-le);
    len = λ d. length d.0;
    slices = λ d. (d.0, []);
    write_left = assign;
    write_right = λ i a d. d;
    push_back = push;
    pop_front = pop;
    default_lem = refl;
    len_lem = λ d. ap length (sym (append-nil d.0));
    len-le = λ d. d.1;
    write_left_lem = λ i a d h. refl;
    write_right_lem = λ i a d h. refl;
    push_back_lem = push_lem;
    pop_front-nil = pop-nil;
    pop_front-cons = pop-cons;
  }
