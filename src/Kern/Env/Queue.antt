-- ===== src/Kern/Env/Queue.antt =====
-- `env_sched_list` has each environment that can run once, and no other.
use buaa_os_mos_with_fat.Base.{
  ℕ, zero, suc, ◌+◌, ◌-◌, ◌≤◌, ◌≡◌, ◌≢◌, refl, true, false, ◌==◌, ltb, if◌then◌else◌, List, [], ◌∷◌,
  ◌++◌, ok, arith, sym, ap, ◌∙◌,
}
use buaa_os_mos_with_fat.Kern.Sched.{remove}
use buaa_os_mos_with_fat.Kern.Env.{Kernel, status_runnable, times, sched_remove, sched_insert_tail}

pub times-remove :
    (i e : ℕ) (q : List ℕ) → times i (remove e q) ≡ times i q - (if i == e then 1 else 0)
unfolding times remove
times-remove i e [] = ground arith
times-remove i e (x ∷ xs) = ground (arith, times-remove i e xs)

pub times-append :
    (i e : ℕ) (q : List ℕ) → times i (q ++ (e ∷ [])) ≡ times i q + (if i == e then 1 else 0)
unfolding times
times-append i e [] = ground arith
times-append i e (x ∷ xs) = ground (arith, times-append i e xs)

pub record IsQueued (k : Kernel) : Type 0 where
  pub once :
      (i : ℕ) → times i k.env_sched_list ≡ (if (k.envs i).status == status_runnable then 1 else 0)
  pub known : (i : ℕ) → (k.envs i).status ≤ 2

-- environment e gets status s, the others keep theirs
abbrev pub AtStatus : Kernel → (e s : ℕ) → Kernel → Type 0
AtStatus k e s t = (i : ℕ) → (t.envs i).status ≡ (if i == e then s else (k.envs i).status)

module _ (k t : Kernel) (v : IsQueued k) where
  pub IsQueued-same :
      t.env_sched_list ≡ k.env_sched_list
      → ((i : ℕ) → (t.envs i).status ≡ (k.envs i).status)
      → IsQueued t
  IsQueued-same list same = record {
    once = λ i.
        ap (times i) list
        ∙ v.once i
        ∙ ap (λ s. if s == status_runnable then 1 else 0) (sym (same i));
    known = λ i. omega (arith, same i, v.known i);
  }

  pub IsQueued-insert :
      (e : ℕ)
      → (k.envs e).status ≢ status_runnable
      → t.env_sched_list ≡ k.env_sched_list ++ (e ∷ [])
      → AtStatus k e status_runnable t
      → IsQueued t
  IsQueued-insert e out list new = record {
    once = λ i. ap (times i) list ∙ times-append i e k.env_sched_list ∙ counted i;
    known = λ i. ground (arith, new i, v.known i);
  }
    where
      counted :
          (i : ℕ)
          → times i k.env_sched_list + (if i == e then 1 else 0)
            ≡ (if (t.envs i).status == status_runnable then 1 else 0)
      counted i = ground (arith, v.once i, new i, v.once e)

  -- the environment could not run before and can not now
  pub IsQueued-idle :
      (e s : ℕ)
      → (k.envs e).status ≢ status_runnable
      → s ≢ status_runnable
      → s ≤ 2
      → t.env_sched_list ≡ k.env_sched_list
      → AtStatus k e s t
      → IsQueued t
  IsQueued-idle e s out still small list new = record {
    once = λ i. ap (times i) list ∙ v.once i ∙ counted i;
    known = λ i. ground (arith, new i, v.known i);
  }
    where
      counted :
          (i : ℕ)
          → (if (k.envs i).status == status_runnable then suc zero else zero)
            ≡ (if (t.envs i).status == status_runnable then suc zero else zero)
      counted i = ground (arith, new i)

  pub IsQueued-remove :
      (e s : ℕ)
      → s ≢ status_runnable
      → s ≤ 2
      → t.env_sched_list ≡ remove e k.env_sched_list
      → AtStatus k e s t
      → IsQueued t
  IsQueued-remove e s out small list new = record {
    once = λ i. ap (times i) list ∙ times-remove i e k.env_sched_list ∙ counted i;
    known = λ i. ground (arith, new i, v.known i);
  }
    where
      counted :
          (i : ℕ)
          → times i k.env_sched_list - (if i == e then 1 else 0)
            ≡ (if (t.envs i).status == status_runnable then 1 else 0)
      counted i = ground (arith, v.once i, new i)

module _ (k : Kernel) (v : IsQueued k) where
  pub times_listed :
      (e : ℕ) → (k.envs e).status ≡ status_runnable → ltb 0 (times e k.env_sched_list) ≡ true
  times_listed e runs = ground (arith, v.once e)

  pub times_unlisted :
      (e : ℕ) → (k.envs e).status ≢ status_runnable → ltb 0 (times e k.env_sched_list) ≡ false
  times_unlisted e out = ground (arith, v.once e)

  pub sched_remove_lem :
      (e : ℕ)
      → (k.envs e).status ≡ status_runnable
      → sched_remove e k ≡ ok tt (record k { env_sched_list = remove e k.env_sched_list })
  unfolding sched_remove
  sched_remove_lem e runs = rw (times_listed e runs) refl

  pub sched_insert_tail_lem :
      (e : ℕ)
      → (k.envs e).status ≢ status_runnable
      → sched_insert_tail e k ≡ ok tt (record k { env_sched_list = k.env_sched_list ++ (e ∷ []) })
  unfolding sched_insert_tail
  sched_insert_tail_lem e out = rw (times_unlisted e out) refl
