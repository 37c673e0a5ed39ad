-- ===== src/Base/Outcomes.antt =====
-- What a C function of this code does to its state: it returns, it returns a negative error code,
-- or it stops in `panic`, `user_panic` or a failed assertion.
use mathlib.Core.Bool.{Bool, true, false}
use mathlib.Core.Path.{◌≡◌, refl, ap}

-- include/error.h, the codes that the modelled functions return
pub data Error : Type 0 where
  bad_env inval no_mem no_free_env ipc_not_recv no_disk max_open not_found bad_path file_exists :
      Error

pub data Run (S A : Type 0) : Type 0 where
  ok : A → S → Run S A
  err : Error → S → Run S A
  panic : Run S A

abbrev pub Cmd : Type 0 → Type 0 → Type 0
Cmd S A = S → Run S A

module _ {S A B : Type 0} where
  -- `if ((r = f()) < 0) return r;`
  abbrev pub and_then : Run S A → (A → Cmd S B) → Run S B
  and_then (ok a s) f = f a s
  and_then (err e s) f = err e s
  and_then panic f = panic

  infixl 5 ◌>>=◌ ◌>>◌
  abbrev pub ◌>>=◌ : Cmd S A → (A → Cmd S B) → Cmd S B
  m >>= f = λ s. and_then (m s) f

  abbrev pub ◌>>◌ : Cmd S A → Cmd S B → Cmd S B
  m >> n = m >>= λ _. n

module _ {S : Type 0} where
  -- `return a;`
  abbrev pub pure : {A : Type 0} → A → Cmd S A
  pure a s = ok a s

  -- `return -E_…;`
  abbrev pub fail : {A : Type 0} → Error → Cmd S A
  fail e s = err e s

  abbrev pub stop : {A : Type 0} → Cmd S A
  stop s = panic

  -- the state, read and replaced
  abbrev pub get : Cmd S S
  get s = ok s s

  abbrev pub modify : (S → S) → Cmd S (Unit {0})
  modify f s = ok tt (f s)

  -- `user_assert(b)`
  abbrev pub assert : Bool → Cmd S (Unit {0})
  assert true s = ok tt s
  assert false s = panic

pub assert-true : {S : Type 0} (b : Bool) (s : S) → b ≡ true → assert b s ≡ ok tt s
assert-true b s e = ap (λ c. assert c s) e

pub and_then_assoc :
    {S A B C : Type 0} (r : Run S A) (f : A → Cmd S B) (g : B → Cmd S C)
    → and_then (and_then r f) g ≡ and_then r (λ a s. and_then (f a s) g)
and_then_assoc (ok a s) f g = refl
and_then_assoc (err e s) f g = refl
and_then_assoc Run.panic f g = refl
