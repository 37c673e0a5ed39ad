-- ===== src/Kern/Syscalls/Receive.antt =====
-- `sys_ipc_recv`: the caller waits, and another environment runs.
use buaa_os_mos_with_fat.Base.{
  ℕ, ◌≡◌, ◌≢◌, refl, Bool, true, false, ◌&&◌, ◌==◌, ◌!=◌, if◌then◌else◌, List, [], ◌∷◌, some, inval,
  Run, ok, err, panic, arith, Bool-cases, inl, inr, ap, ◌∙◌,
}
use buaa_os_mos_with_fat.Base.Bitmap.{update}
use buaa_os_mos_with_fat.Kern.Sched.{remove}
use buaa_os_mos_with_fat.Kern.Env.{
  Kernel, status_runnable, status_not_runnable, set_env, sched_remove, times,
}
use buaa_os_mos_with_fat.Kern.Env.Free.{switch}
use buaa_os_mos_with_fat.Kern.Env.Ids.{the_curenv_lem}
use buaa_os_mos_with_fat.Kern.Env.Queue.{
  IsQueued, AtStatus, IsQueued-same, IsQueued-remove, times_listed,
}
use buaa_os_mos_with_fat.Kern.Env.Switch.{Switched, switch_next, switch_none}
use buaa_os_mos_with_fat.Kern.Syscalls.{is_illegal_va, refuse_if, block, sys_ipc_recv}

-- the kernel in which the caller waits
abbrev pub blocked : (c dstva : ℕ) → Kernel → Kernel
blocked c dstva k =
    let asking : Kernel = set_env c (λ x. record x { ipc_recving = 1; ipc_dstva = dstva }) k in
    let idle : Kernel = set_env c (λ x. record x { status = status_not_runnable }) asking in
    record idle {
      env_sched_list = remove c k.env_sched_list;
      frame = record k.frame { regs = update k.frame.regs 2 0 };
    }

blocked-envs :
    (c dstva : ℕ) (k : Kernel) (i : ℕ)
    → (blocked c dstva k).envs i ≡ (
        if i == c
        then record (k.envs c) { ipc_recving = 1; ipc_dstva = dstva; status = status_not_runnable }
        else k.envs i)
unfolding set_env
blocked-envs c dstva k i = elim (Bool-cases (i == c)) [
  | inl same ↦ rw (same, own c) refl
  | inr other ↦ rw other refl
]
  where
    own : (j : ℕ) → (j == j) ≡ true
    own j = ground arith

listed_first :
    (k : Kernel) (y : ℕ) (rest q : List ℕ)
    → IsQueued k
    → k.env_sched_list ≡ q
    → q ≡ y ∷ rest
    → (k.envs y).status ≡ status_runnable
unfolding times
listed_first k y rest q v is first =
    let n : times y k.env_sched_list ≡ times y (y ∷ rest) = ap (times y) (is ∙ first) in
    ground (arith, n, v.once y)

-- What `sys_ipc_recv` may do for the caller c; the environment that is returned runs next.
abbrev pub Received : Kernel → (c dstva : ℕ) → Run Kernel ℕ → Type 0
Received k c dstva (ok y t) =
    IsQueued t
    × (t.curenv ≡ some y)
    × (t.env_sched_list ≡ remove c k.env_sched_list)
    × (rest : List ℕ) × (t.env_sched_list ≡ y ∷ rest)
    × ((t.envs c).status ≡ status_not_runnable)
    × ((t.envs c).ipc_recving ≡ 1)
    × ((t.envs c).ipc_dstva ≡ dstva)
Received k c dstva (err code t) =
    (code ≡ inval) × (t ≡ k) × (dstva ≢ 0) × (is_illegal_va dstva ≡ true)
Received k c dstva Run.panic = remove c k.env_sched_list ≡ []

module _ (k : Kernel) (c dstva : ℕ) (cur : k.curenv ≡ some c) (v : IsQueued k)
    (runs : (k.envs c).status ≡ status_runnable) where
  block_lem : block c dstva k ≡ ok tt (blocked c dstva k)
  unfolding block set_env sched_remove
  block_lem = rw (times_listed k v c runs) refl

  abbrev b : Kernel
  b = blocked c dstva k

  blocked_self :
      b.envs c
      ≡ record (k.envs c) { ipc_recving = 1; ipc_dstva = dstva; status = status_not_runnable }
  blocked_self = blocked-envs c dstva k c ∙ own (c == c) (ground arith)
    where
      own :
          (t : Bool)
          → t ≡ true
          → (if t
              then record (k.envs c) {
                ipc_recving = 1;
                ipc_dstva = dstva;
                status = status_not_runnable;
              }
              else k.envs c)
            ≡ record (k.envs c) { ipc_recving = 1; ipc_dstva = dstva; status = status_not_runnable }
      own t h = rw h refl

  blocked-AtStatus : AtStatus k c status_not_runnable b
  blocked-AtStatus i = ap (λ x. x.status) (blocked-envs c dstva k i) ∙ if_status (i == c)
    where
      if_status :
          (t : Bool)
          → (if t
              then record (k.envs c) {
                ipc_recving = 1;
                ipc_dstva = dstva;
                status = status_not_runnable;
              }
              else k.envs i).status
            ≡ (if t then status_not_runnable else (k.envs i).status)
      if_status true = refl
      if_status false = refl

  blocked-IsQueued : IsQueued b
  unfolding set_env
  blocked-IsQueued =
      IsQueued-remove k b v c status_not_runnable (λ e. omega arith) (omega arith) refl
        blocked-AtStatus

  blocked-list : b.env_sched_list ≡ remove c k.env_sched_list
  unfolding set_env
  blocked-list = refl

  blocked-curenv : b.curenv ≡ some c
  unfolding set_env
  blocked-curenv = cur

  Switched-Received :
      (y : ℕ) (t : Kernel) (rest : List ℕ)
      → remove c k.env_sched_list ≡ y ∷ rest
      → Switched y b t
      → Received k c dstva (ok y t)
  Switched-Received y t rest first s = (
    IsQueued-same b t blocked-IsQueued s.list (λ i. (s.mail i).status),
    s.runs,
    s.list ∙ blocked-list,
    rest,
    s.list ∙ blocked-list ∙ first,
    (s.mail c).status ∙ ap (λ x. x.status) blocked_self,
    (s.mail c).recving ∙ ap (λ x. x.ipc_recving) blocked_self,
    (s.mail c).dstva ∙ ap (λ x. x.ipc_dstva) blocked_self,
  )

  run_lem :
      (r : Run Kernel ℕ)
      → switch true b ≡ r
      → Received k c dstva r
      → Received k c dstva (switch true b)
  run_lem r is got = rw is got

  next-Received : (q : List ℕ) → remove c k.env_sched_list ≡ q → Received k c dstva (switch true b)
  next-Received [] first = run_lem panic (switch_none b (blocked-list ∙ first)) first
  next-Received (y ∷ rest) first =
      let (t, is, s) =
        switch_next b c blocked-curenv (λ e. omega (arith, ap (λ x. x.status) blocked_self)) y rest
          (blocked-list ∙ first)
          (listed_first b y rest (y ∷ rest) blocked-IsQueued (blocked-list ∙ first) refl) in
      run_lem (ok y t) is (Switched-Received y t rest first s)

  -- When `env_sched_list` is in step with the statuses and the caller can run, `sys_ipc_recv` either
  -- refuses an address that is neither zero nor legal with -E_INVAL, changing nothing; or makes the
  -- caller wait with that address, takes it off the list, which is in step again, and the first of
  -- the rest runs. It panics only if no other environment can run.
  pub sys_ipc_recv-Received : Received k c dstva (sys_ipc_recv dstva k)
  unfolding sys_ipc_recv refuse_if
  sys_ipc_recv-Received = elim (Bool-cases (dstva != 0 && is_illegal_va dstva)) [
    | inl bad ↦ rw bad (refl, refl, λ e. ground arith, ground arith)
    | inr good ↦
        rw (good, the_curenv_lem k c cur, block_lem)
          (next-Received (remove c k.env_sched_list) refl)
  ]
