-- ===== src/Kern/Env/Switch.antt =====
-- The switch from an environment that can not run: `schedule(1)` and `env_run`.
use buaa_os_mos_with_fat.Base.{
  ℕ, ◌+◌, ◌-◌, ◌%◌, ◌^◌, ◌≡◌, ◌≢◌, refl, true, false, ◌==◌, if◌then◌else◌, List, [], ◌∷◌, Option,
  none, some, Run, ok, panic, and_then, arith, Bool-cases, inl, inr, sym, ap, ◌∙◌,
}
use buaa_os_mos_with_fat.Kern.Sched.{
  Sched, needs_pick, rotate, pick_first, pick, resume, run_env, schedule,
}
use buaa_os_mos_with_fat.Kern.Env.{Env, Kernel, status_runnable, set_env}
use buaa_os_mos_with_fat.Kern.Env.Free.{switch, run_picked, env_run, save_frame, sched_of}

-- the scheduler takes the first of the list when the environment that yields can not run
rotate_lem :
    (o : Option ℕ) (c : ℕ) (s : Sched)
    → o ≡ some c
    → s.runnable c ≡ false
    → rotate o s ≡ ok s.queue s
unfolding rotate
rotate_lem o c s cur stuck = rw (cur, stuck) refl

pick_first_lem :
    (q rest : List ℕ) (y : ℕ) (s : Sched)
    → q ≡ y ∷ rest
    → pick_first q s ≡ run_env y (record s { count = s.pri y; queue = y ∷ rest })
unfolding pick_first
pick_first_lem q rest y s list = rw list refl

pick_lem :
    (q rest : List ℕ) (y : ℕ) (s : Sched)
    → q ≡ y ∷ rest
    → pick q s ≡ and_then (rotate s.cur s) pick_first
unfolding pick
pick_lem q rest y s list = rw list refl

yields :
    (o : Option ℕ) (s : Sched) (r : Run Sched ℕ)
    → needs_pick o true s ≡ true
    → pick s.queue s ≡ r
    → (if needs_pick o true s then pick s.queue s else resume o s) ≡ r
yields o s r must picked = rw must picked

must_pick : (o : Option ℕ) (s : Sched) → needs_pick o true s ≡ true
unfolding needs_pick
must_pick none s = refl
must_pick (some e) s = refl

schedule_next :
    (s : Sched) (c y : ℕ) (rest : List ℕ)
    → s.cur ≡ some c
    → s.runnable c ≡ false
    → s.queue ≡ y ∷ rest
    → schedule true s ≡ run_env y (record s { count = s.pri y; queue = y ∷ rest })
unfolding schedule
schedule_next s c y rest cur stuck list = yields s.cur s _ (must_pick s.cur s) (
    pick_lem s.queue rest y s list
    ∙ ap (λ r. and_then r pick_first) (rotate_lem s.cur c s cur stuck)
    ∙ pick_first_lem s.queue rest y s list)

pick_none : (q : List ℕ) (s : Sched) → q ≡ [] → pick q s ≡ panic
unfolding pick
pick_none q s empty = rw empty refl

schedule_none : (s : Sched) → s.queue ≡ [] → schedule true s ≡ panic
unfolding schedule
schedule_none s empty = yields s.cur s panic (must_pick s.cur s) (pick_none s.queue s empty)

-- the kernel once y runs
abbrev ran : (y : ℕ) → Kernel → Kernel
ran y k =
    let s : Kernel = save_frame k.curenv k in
    let t : Kernel =
      set_env y (λ x. record x { runs = (x.runs + 1) % 2 ^ 32 }) (record s { curenv = some y }) in
    record t { cur_pgdir = (t.envs y).pgdir; frame = (t.envs y).tf }

env_run_lem :
    (y : ℕ) (k : Kernel) → (k.envs y).status ≡ status_runnable → env_run y k ≡ ok y (ran y k)
unfolding env_run
env_run_lem y k runs =
    let test : ((k.envs y).status == status_runnable) ≡ true = ground arith in rw test refl

-- the fields of messages, and the status, which a switch leaves alone
pub record SameMail (x y : Env) : Type 0 where
  pub status : y.status ≡ x.status
  pub recving : y.ipc_recving ≡ x.ipc_recving
  pub dstva : y.ipc_dstva ≡ x.ipc_dstva

SameMail-next : {x y z : Env} → SameMail x y → SameMail y z → SameMail x z
SameMail-next f g = record {
  status = g.status ∙ f.status;
  recving = g.recving ∙ f.recving;
  dstva = g.dstva ∙ f.dstva;
}

SameMail-set_env :
    (e : ℕ) (f : Env → Env) (k : Kernel)
    → SameMail (k.envs e) (f (k.envs e))
    → (i : ℕ) → SameMail (k.envs i) ((set_env e f k).envs i)
unfolding set_env
SameMail-set_env e f k same i = elim (Bool-cases (i == e)) [
  | inl here ↦ let h : i ≡ e = ground arith in rw (here, h) same
  | inr other ↦ rw other (record { status = refl; recving = refl; dstva = refl })
]

save_frame-SameMail :
    (o : Option ℕ) (k : Kernel) (i : ℕ) → SameMail (k.envs i) ((save_frame o k).envs i)
unfolding save_frame
save_frame-SameMail none k i = record { status = refl; recving = refl; dstva = refl }
save_frame-SameMail (some c) k i =
    SameMail-set_env c (λ x. record x { tf = k.frame }) k
      (record { status = refl; recving = refl; dstva = refl }) i

save_frame-list : (o : Option ℕ) (k : Kernel) → (save_frame o k).env_sched_list ≡ k.env_sched_list
unfolding save_frame set_env
save_frame-list none k = refl
save_frame-list (some c) k = refl

-- What `env_run(y)` has done.
pub record Switched (y : ℕ) (k t : Kernel) : Type 0 where
  pub runs : t.curenv ≡ some y
  pub list : t.env_sched_list ≡ k.env_sched_list
  pub mail : (i : ℕ) → SameMail (k.envs i) (t.envs i)

ran-Switched : (y : ℕ) (k : Kernel) → Switched y k (ran y k)
unfolding set_env
ran-Switched y k = record {
  runs = refl;
  list = save_frame-list k.curenv k;
  mail = λ i. SameMail-next (save_frame-SameMail k.curenv k i) (
      SameMail-set_env y (λ x. record x { runs = (x.runs + 1) % 2 ^ 32 })
        (record (save_frame k.curenv k) { curenv = some y })
        (record { status = refl; recving = refl; dstva = refl }) i);
}

module _ (k : Kernel) (c : ℕ) (cur : k.curenv ≡ some c)
    (stuck : (k.envs c).status ≢ status_runnable) where
  pub switch_next :
      (y : ℕ) (rest : List ℕ)
      → k.env_sched_list ≡ y ∷ rest
      → (k.envs y).status ≡ status_runnable
      → (t : Kernel) × (switch true k ≡ ok y t) × Switched y k t
  unfolding switch run_picked run_env
  switch_next y rest list runs =
      let n : Kernel = record k {
        count = ((k.envs y).pri + (2 ^ 32 - 1)) % 2 ^ 32;
        env_sched_list = y ∷ rest;
      } in
      let done : Switched y n (ran y n) = ran-Switched y n in
      (
        ran y n,
        ap (run_picked k) (schedule_next (sched_of k) c y rest cur (ground arith) list)
            ∙ env_run_lem y n runs,
        record { runs = done.runs; list = done.list ∙ sym list; mail = done.mail },
      )

pub switch_none : (k : Kernel) → k.env_sched_list ≡ [] → switch true k ≡ panic
unfolding switch run_picked
switch_none k empty = ap (run_picked k) (schedule_none (sched_of k) empty)
