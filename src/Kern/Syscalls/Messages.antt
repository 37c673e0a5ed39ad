-- ===== src/Kern/Syscalls/Messages.antt =====
-- Messages: a receiver waits, and a sender delivers and wakes it.
use Prim.Native.Nat.{bit_or}
use buaa_os_mos_with_fat.Base.{
  ℕ, ◌≡◌, ◌≢◌, refl, Bool, true, false, ◌==◌, if◌then◌else◌, [], ◌∷◌, ◌++◌, some, ipc_not_recv, Run,
  ok, err, arith, Bool-cases, inl, inr, ap, ◌∙◌,
}
use buaa_os_mos_with_fat.Kern.Pages.{pte_v}
use buaa_os_mos_with_fat.Kern.Env.{
  Env, Kernel, status_runnable, set_env, sched_insert_tail, envid2env,
}
use buaa_os_mos_with_fat.Kern.Env.Ids.{the_curenv_lem}
use buaa_os_mos_with_fat.Kern.Env.Queue.{IsQueued, AtStatus, IsQueued-insert, times_unlisted}
use buaa_os_mos_with_fat.Kern.Syscalls.{refuse_if, target, deliver, send_page, sys_ipc_try_send}

-- the receiver after the delivery
abbrev pub woken : Env → (from value perm : ℕ) → Env
woken x from value perm = record x {
  ipc_value = value;
  ipc_from = from;
  ipc_perm = bit_or pte_v perm;
  ipc_recving = 0;
  status = status_runnable;
}

-- the kernel after it
abbrev delivered : (e from value perm : ℕ) → Kernel → Kernel
delivered e from value perm k =
    let marked : Kernel =
      set_env e
        (λ x. record x {
          ipc_value = value;
          ipc_from = (k.envs from).id;
          ipc_perm = bit_or pte_v perm;
          ipc_recving = 0;
        })
        k in
    let ready : Kernel = set_env e (λ x. record x { status = status_runnable }) marked in
    record ready { env_sched_list = k.env_sched_list ++ (e ∷ []) }

delivered-envs :
    (e from value perm : ℕ) (k : Kernel) (i : ℕ)
    → (delivered e from value perm k).envs i
      ≡ (if i == e then woken (k.envs e) (k.envs from).id value perm else k.envs i)
unfolding set_env
delivered-envs e from value perm k i = elim (Bool-cases (i == e)) [
  | inl same ↦ rw (same, own e) refl
  | inr other ↦ rw other refl
]
  where
    own : (j : ℕ) → (j == j) ≡ true
    own j = ground arith

module _ (k : Kernel) (v : IsQueued k) (e c value perm : ℕ)
    (sleeps : (k.envs e).status ≢ status_runnable) where
  pub deliver_lem : deliver e c value perm k ≡ ok tt (delivered e c value perm k)
  unfolding deliver set_env sched_insert_tail
  deliver_lem = rw (times_unlisted k v e sleeps) refl

  delivered-AtStatus : AtStatus k e status_runnable (delivered e c value perm k)
  delivered-AtStatus i = ap (λ x. x.status) (delivered-envs e c value perm k i) ∙ if_status (i == e)
    where
      if_status :
          (b : Bool)
          → (if b then woken (k.envs e) (k.envs c).id value perm else k.envs i).status
            ≡ (if b then status_runnable else (k.envs i).status)
      if_status true = refl
      if_status false = refl

  pub delivered-IsQueued : IsQueued (delivered e c value perm k)
  unfolding set_env
  delivered-IsQueued =
      IsQueued-insert k (delivered e c value perm k) v e sleeps refl delivered-AtStatus

-- What `sys_ipc_try_send` without a page may return when the receiver is e.
abbrev pub Sent : Kernel → (e c value perm : ℕ) → Run Kernel (Unit {0}) → Type 0
Sent k e c value perm (ok _ t) =
    ((k.envs e).ipc_recving ≢ 0)
    × IsQueued t
    × (t.env_sched_list ≡ k.env_sched_list ++ (e ∷ []))
    × ((i : ℕ)
        → t.envs i ≡ (if i == e then woken (k.envs e) (k.envs c).id value perm else k.envs i))
Sent k e c value perm (err code t) = (code ≡ ipc_not_recv) × ((k.envs e).ipc_recving ≡ 0) × (t ≡ k)
Sent k e c value perm Run.panic = ⊥

target_lem : (r : Run Kernel ℕ) (e : ℕ) (k : Kernel) → r ≡ ok e k → target r ≡ ok e k
unfolding target
target_lem r e k h = rw h refl

-- When `env_sched_list` is in step with the statuses, `sys_ipc_try_send` of a value without a page,
-- to an environment that can not run while it waits, either fails with -E_IPC_NOT_RECV, changing
-- nothing, because the receiver does not wait; or stores the value, the sender and the flags in the
-- receiver, which no longer waits and comes last in the list, in step again, and leaves the other
-- environments as they are.
pub sys_ipc_try_send-Sent :
    (k : Kernel) (envid e c value perm : ℕ)
    → k.curenv ≡ some c
    → IsQueued k
    → envid2env envid false k ≡ ok e k
    → ((k.envs e).ipc_recving ≢ 0 → (k.envs e).status ≢ status_runnable)
    → Sent k e c value perm (sys_ipc_try_send envid value 0 perm k)
unfolding sys_ipc_try_send refuse_if send_page
sys_ipc_try_send-Sent k envid e c value perm cur v is sleeps =
    elim (Bool-cases ((k.envs e).ipc_recving == 0)) [
      | inl deaf ↦ rw (target_lem (envid2env envid false k) e k is, deaf) (refl, ground arith, refl)
      | inr waits ↦
          let waiting : (k.envs e).ipc_recving ≢ 0 = λ z. ground arith in
          rw
            (
              target_lem (envid2env envid false k) e k is,
              waits,
              the_curenv_lem k c cur,
              deliver_lem k v e c value perm (sleeps waiting),
            )
            (
              waiting,
              delivered-IsQueued k v e c value perm (sleeps waiting),
              refl,
              delivered-envs e c value perm k,
            )
    ]
