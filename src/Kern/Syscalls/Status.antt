-- ===== src/Kern/Syscalls/Status.antt =====
-- `sys_set_env_status` keeps `env_sched_list` in step with the statuses.
use buaa_os_mos_with_fat.Base.{
  ℕ, ◌≡◌, ◌≢◌, refl, Bool, true, false, ◌&&◌, ◌==◌, ◌!=◌, [], ◌∷◌, ◌++◌, some, inval, Run, ok, err,
  Cmd, and_then, arith, Bool-cases, ◌⊎◌, inl, inr, ap, ◌∙◌,
}
use buaa_os_mos_with_fat.Kern.Sched.{remove}
use buaa_os_mos_with_fat.Kern.Env.{
  Env, Kernel, status_runnable, status_not_runnable, set_env, envid2env,
}
use buaa_os_mos_with_fat.Kern.Env.Ids.{Answer, IsMeant, envid2env-Answer}
use buaa_os_mos_with_fat.Kern.Env.Queue.{
  IsQueued, AtStatus, IsQueued-same, IsQueued-insert, IsQueued-remove, sched_remove_lem,
  sched_insert_tail_lem,
}
use buaa_os_mos_with_fat.Kern.Syscalls.{refuse_if, requeue, sys_set_env_status}

-- Steps 3 and 4
abbrev set_status : (e status : ℕ) → Cmd Kernel (Unit {0})
set_status e status k =
    and_then (requeue e status k) (λ _ t. ok tt (set_env e (λ x. record x { status = status }) t))

pub set_env-AtStatus :
    (k : Kernel) (e status : ℕ)
    → AtStatus k e status (set_env e (λ x. record x { status = status }) k)
unfolding set_env
set_env-AtStatus k e status i = ground arith

pub set_env-list :
    (k : Kernel) (e : ℕ) (f : Env → Env) → (set_env e f k).env_sched_list ≡ k.env_sched_list
unfolding set_env
set_env-list k e f = refl

module _ (k : Kernel) (v : IsQueued k) (e status : ℕ)
    (valid : (status ≡ status_runnable) ⊎ (status ≡ status_not_runnable)) where
  abbrev leaves : Bool
  leaves = (k.envs e).status == status_runnable && status == status_not_runnable

  abbrev enters : Bool
  enters = (k.envs e).status == status_not_runnable && status == status_runnable

  abbrev Done : Type 0
  Done = (t : Kernel) × (set_status e status k ≡ ok tt t) × IsQueued t × AtStatus k e status t

  leaving : leaves ≡ true → enters ≡ false → Done
  unfolding requeue
  leaving out stay =
      let n : Kernel = record k { env_sched_list = remove e k.env_sched_list } in
      let t : Kernel = set_env e (λ x. record x { status = status }) n in
      (
        t,
        rw (out, sched_remove_lem k v e (ground arith), stay) refl,
        IsQueued-remove k t v e status (λ f. ground arith) (ground arith)
            (set_env-list n e (λ x. record x { status = status })) (set_env-AtStatus n e status),
        set_env-AtStatus n e status,
      )

  entering : leaves ≡ false → enters ≡ true → Done
  unfolding requeue
  entering stay joins =
      let n : Kernel = record k { env_sched_list = k.env_sched_list ++ (e ∷ []) } in
      let t : Kernel = set_env e (λ x. record x { status = status }) n in
      let now : status ≡ status_runnable = ground arith in
      (
        t,
        rw (stay, joins, sched_insert_tail_lem k v e (λ f. ground arith)) refl,
        IsQueued-insert k t v e (λ f. ground arith)
            (set_env-list n e (λ x. record x { status = status }))
            (λ i. ground (arith, set_env-AtStatus n e status i, now)),
        set_env-AtStatus n e status,
      )

  staying : leaves ≡ false → enters ≡ false → (k.envs e).status ≢ 0 → Done
  unfolding requeue
  staying stay out used =
      let t : Kernel = set_env e (λ x. record x { status = status }) k in
      (
        t,
        rw (stay, out) refl,
        IsQueued-same k t v (set_env-list k e (λ x. record x { status = status }))
            (λ i. ground (arith, set_env-AtStatus k e status i, valid, v.known e)),
        set_env-AtStatus k e status,
      )

  pub set_status-Done : (k.envs e).status ≢ 0 → Done
  set_status-Done used = elim (Bool-cases leaves) [
    | inl out ↦ leaving out (ground arith)
    | inr stay ↦ elim (Bool-cases enters) [
      | inl joins ↦ entering stay joins
      | inr none_moves ↦ staying stay none_moves used
    ]
  ]

-- What `sys_set_env_status` may return.
abbrev pub StatusSet : Kernel → (envid status : ℕ) → Run Kernel (Unit {0}) → Type 0
StatusSet k envid status (ok _ t) =
    IsQueued t × (e : ℕ) × (envid2env envid true k ≡ ok e k) × AtStatus k e status t
StatusSet k envid status (err code t) =
    (t ≡ k)
    × (((code ≡ inval) × (status ≢ status_runnable) × (status ≢ status_not_runnable))
        ⊎ (envid2env envid true k ≡ err code k))
StatusSet k envid status Run.panic = ⊥

module _ (k : Kernel) (v : IsQueued k) (c envid status : ℕ) (alive : (k.envs c).status ≢ 0) where
  used_env :
      (e : ℕ)
      → ((envid ≡ 0) × (e ≡ c)) ⊎ ((envid ≢ 0) × IsMeant k c envid true e)
      → (k.envs e).status ≢ 0
  used_env e (inl (_, same)) = rw same alive
  used_env e (inr (_, meant)) = meant.used

  after_env :
      (r : Run Kernel ℕ)
      → (status ≡ status_runnable) ⊎ (status ≡ status_not_runnable)
      → envid2env envid true k ≡ r
      → Answer k c envid true r
      → StatusSet k envid status (and_then r (λ e t. set_status e status t))
  after_env (ok e t) valid is (same, who) =
      let (n, run, queue, set) = set_status-Done k v e status valid (used_env e who) in
      rw (same, run) (queue, e, is ∙ ap (ok e) same, set)
  after_env (err code t) valid is (same, _, _, _) = (same, inr (is ∙ ap (err code) same))
  after_env Run.panic valid is no_way = no_way

-- When `env_sched_list` has each environment that can run once and no other, and the caller is
-- not free, `sys_set_env_status` either gives the environment of the identifier the status, and
-- no other one another, with the list in step again; or refuses another status than the two with
-- -E_INVAL, or an identifier that `envid2env` refuses, and changes nothing.
pub sys_set_env_status-StatusSet :
    (k : Kernel) (c envid status : ℕ)
    → k.curenv ≡ some c
    → IsQueued k
    → (k.envs c).status ≢ 0
    → StatusSet k envid status (sys_set_env_status envid status k)
unfolding sys_set_env_status refuse_if
sys_set_env_status-StatusSet k c envid status cur v alive =
    elim (Bool-cases (status != status_runnable && status != status_not_runnable)) [
      | inl bad ↦ rw bad (refl, inl (refl, λ e. ground arith, λ e. ground arith))
      | inr good ↦ rw good (
          after_env k v c envid status alive (envid2env envid true k) (which good) refl
            (envid2env-Answer k c envid true cur))
    ]
  where
    which :
        (status != status_runnable && status != status_not_runnable) ≡ false
        → (status ≡ status_runnable) ⊎ (status ≡ status_not_runnable)
    which good = elim (Bool-cases (status == status_runnable)) [
      | inl one ↦ inl (ground arith)
      | inr two ↦ inr (ground arith)
    ]
