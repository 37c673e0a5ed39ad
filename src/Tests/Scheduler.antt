-- ===== src/Tests/Scheduler.antt =====
-- Three environments that can run, the first of which does.
use buaa_os_mos_with_fat.Base.{ℕ, ◌≡◌, refl, true, List, [], ◌∷◌, some, ok, panic}
use buaa_os_mos_with_fat.Kern.Sched.{Sched, schedule}
use buaa_os_mos_with_fat.Kern.Sched.Turns.{after, after-yields}

abbrev three : Sched
three = record {
  cur = some 5;
  count = 2;
  queue = 5 ∷ 6 ∷ 7 ∷ [];
  runnable = λ e. true;
  pri = λ e. e;
}

heads : (e : ℕ) (q q' : List ℕ) → 5 ∷ q' ≡ e ∷ q → three.cur ≡ some e
heads e q q' h = cc h

after-yields_example :
    (t : Sched) × (after true 2 three ≡ some t) × (t.cur ≡ some 7) × (t.queue ≡ 7 ∷ 5 ∷ 6 ∷ [])
after-yields_example =
    after-yields (5 ∷ 6 ∷ []) 7 [] three refl (λ e q h. heads e q (6 ∷ 7 ∷ []) h) (refl, (refl, tt))

-- the list has lost the environment that runs
off_the_list : schedule true (record three { queue = 6 ∷ 7 ∷ [] }) ≡ panic
unfolding schedule
off_the_list = refl

next_is_six :
    schedule true three ≡ ok 6 (record three { cur = some 6; count = 5; queue = 6 ∷ 7 ∷ 5 ∷ [] })
unfolding schedule
next_is_six = refl
