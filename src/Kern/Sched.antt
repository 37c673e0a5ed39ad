-- ===== src/Kern/Sched.antt =====
-- kern/sched.c: `schedule`. An environment is its number. `queue` is `env_sched_list`, and `count`,
-- an `int`, is its bit pattern. `env_run` leaves the environment that it runs in `cur`.
pub mod Turns
use buaa_os_mos_with_fat.Base.{
  ℕ, zero, suc, ◌+◌, ◌-◌, ◌%◌, ◌^◌, Bool, true, false, not, ◌||◌, ◌==◌, if◌then◌else◌, List, [],
  ◌∷◌, ◌++◌, Option, none, some, Run, ok, panic, Cmd, and_then,
}

pub record Sched : Type 0 where
  pub cur : Option ℕ
  pub count : ℕ
  pub queue : List ℕ
  pub runnable : ℕ → Bool
  pub pri : ℕ → ℕ

-- TAILQ_REMOVE
unfoldable pub remove : ℕ → List ℕ → List ℕ
remove e [] = []
remove e (x ∷ xs) = if x == e then xs else x ∷ remove e xs

unfoldable pub needs_pick : Option ℕ → Bool → Sched → Bool
needs_pick none yield s = true
needs_pick (some e) yield s = yield || s.count == 0 || not (s.runnable e)

abbrev pub contains : ℕ → List ℕ → Bool
contains e [] = false
contains e (x ∷ xs) = x == e || contains e xs

-- an environment that can still run goes to the tail
unfoldable pub rotate : Option ℕ → Cmd Sched (List ℕ)
unfolding remove
rotate none s = ok s.queue s
rotate (some e) s =
    if not (s.runnable e)
    then ok s.queue s
    else if contains e s.queue
    then ok (remove e s.queue ++ (e ∷ [])) s
    else panic

-- `count --; env_run(e);`
unfoldable pub run_env : ℕ → Cmd Sched ℕ
run_env e s = ok e (record s { cur = some e; count = (s.count + (2 ^ 32 - 1)) % 2 ^ 32 })

unfoldable pub pick_first : List ℕ → Cmd Sched ℕ
unfolding run_env
pick_first [] s = panic
pick_first (e ∷ q) s = run_env e (record s { count = s.pri e; queue = e ∷ q })

-- the panic for an empty list comes before the rotation
unfoldable pub pick : List ℕ → Cmd Sched ℕ
unfolding rotate pick_first
pick [] s = panic
pick (x ∷ q) s = and_then (rotate s.cur s) pick_first

unfoldable pub resume : Option ℕ → Cmd Sched ℕ
unfolding run_env
resume none s = panic
resume (some e) s = run_env e s

unfoldable pub schedule : (yield : Bool) → Cmd Sched ℕ
unfolding needs_pick pick resume
schedule yield s = if needs_pick s.cur yield s then pick s.queue s else resume s.cur s
