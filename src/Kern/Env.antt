-- ===== src/Kern/Env.antt =====
-- kern/env.c: environments. An environment is its index in `envs`, and a page directory the number
-- of its page. `frame` is the trap frame below KSTACKTOP, `made` the counter of `mkenvid`. What C
-- leaves undefined (a null pointer that is followed, a list operation that corrupts the list) is
-- `panic`.
pub mod Ids
pub mod Queue
pub mod Switch
pub mod Alloc
pub mod Free
use Prim.Native.Nat.{bit_and, bit_or}
use buaa_os_mos_with_fat.Base.{
  ℕ, zero, suc, ◌+◌, ◌-◌, ◌*◌, ◌/◌, ◌%◌, ◌^◌, Bool, true, false, not, ◌&&◌, ◌||◌, ◌==◌, ◌!=◌, ltb,
  leb, if◌then◌else◌, List, [], ◌∷◌, ◌++◌, Option, none, some, Error, no_mem, bad_env, no_free_env,
  Run, ok, err, panic, Cmd, pure, fail, get, modify, assert, stop, ◌>>=◌, ◌>>◌,
}
use buaa_os_mos_with_fat.Base.Bitmap.{Words, update}
use buaa_os_mos_with_fat.Kern.Asid.{asid_alloc, asid_free}
use buaa_os_mos_with_fat.Kern.Pages.{
  Mem, is_valid, ppn, pte_v, page_alloc, page_decref, page_remove, tlb_invalidate, set_word,
  set_ref,
}
use buaa_os_mos_with_fat.Kern.Sched.{Sched, remove, schedule}

pub record Trapframe : Type 0 where
  pub regs : Words
  pub cp0_status : ℕ
  pub hi : ℕ
  pub lo : ℕ
  pub cp0_badvaddr : ℕ
  pub cp0_cause : ℕ
  pub cp0_epc : ℕ

pub record Env : Type 0 where
  pub tf : Trapframe
  pub id : ℕ
  pub asid : ℕ
  pub parent_id : ℕ
  pub status : ℕ
  pub pgdir : ℕ
  pub pri : ℕ
  pub ipc_value : ℕ
  pub ipc_from : ℕ
  pub ipc_recving : ℕ
  pub ipc_dstva : ℕ
  pub ipc_perm : ℕ
  pub user_tlb_mod_entry : ℕ
  pub runs : ℕ

pub record Kernel : Type 0 where
  pub envs : ℕ → Env
  pub curenv : Option ℕ
  pub env_free_list : List ℕ
  pub env_sched_list : List ℕ
  pub base_pgdir : ℕ
  pub cur_pgdir : ℕ
  pub asid_bitmap : Words
  pub made : ℕ
  pub count : ℕ
  pub frame : Trapframe
  pub mem : Mem

-- ENV_FREE, ENV_RUNNABLE and ENV_NOT_RUNNABLE
abbrev pub status_free : ℕ
status_free = 0

abbrev pub status_runnable : ℕ
status_runnable = 1

abbrev pub status_not_runnable : ℕ
status_not_runnable = 2

-- UVPT and USTACKTOP
abbrev pub uvpt : ℕ
uvpt = 2 ^ 31 - 2 ^ 22

abbrev pub ustacktop : ℕ
ustacktop = 2 ^ 31 - 3 * 2 ^ 22 - 2 * 2 ^ 12

unfoldable pub set_env : ℕ → (Env → Env) → Kernel → Kernel
set_env e f k = record k { envs = λ i. if i == e then f (k.envs e) else k.envs i }

-- a call that works on memory alone, or on the bitmap alone
unfoldable pub with_mem : {A : Type 0} → Kernel → Run Mem A → Run Kernel A
with_mem k (ok a m) = ok a (record k { mem = m })
with_mem k (err e m) = err e (record k { mem = m })
with_mem k Run.panic = panic

unfoldable pub on_mem : {A : Type 0} → Cmd Mem A → Cmd Kernel A
unfolding with_mem
on_mem c k = with_mem k (c k.mem)

unfoldable pub with_asids : Kernel → Run Words ℕ → Run Kernel ℕ
with_asids k (ok a b) = ok a (record k { asid_bitmap = b })
with_asids k (err e b) = err e (record k { asid_bitmap = b })
with_asids k Run.panic = panic

-- a call whose result is not looked at
unfoldable pub ignored : {A : Type 0} → Run Kernel A → Run Kernel (Unit {0})
ignored (ok a k) = ok tt k
ignored (err e k) = ok tt k
ignored Run.panic = panic

-- `curenv->…`
unfoldable pub current : Option ℕ → Cmd Kernel ℕ
current none k = panic
current (some e) k = ok e k

unfoldable pub the_curenv : Cmd Kernel ℕ
unfolding current
the_curenv k = current k.curenv k

-- how often an environment is on a list
unfoldable pub times : ℕ → List ℕ → ℕ
times e [] = 0
times e (x ∷ xs) = (if x == e then 1 else 0) + times e xs

-- TAILQ_REMOVE and TAILQ_INSERT_TAIL on `env_sched_list`
unfoldable pub sched_remove : ℕ → Cmd Kernel (Unit {0})
unfolding times remove
sched_remove e k =
    if ltb 0 (times e k.env_sched_list)
    then ok tt (record k { env_sched_list = remove e k.env_sched_list })
    else panic

unfoldable pub sched_insert_tail : ℕ → Cmd Kernel (Unit {0})
unfolding times
sched_insert_tail e k =
    if ltb 0 (times e k.env_sched_list)
    then panic
    else ok tt (record k { env_sched_list = k.env_sched_list ++ (e ∷ []) })

-- `((++i) << (1 + LOG2NENV)) | (e - envs)`
unfoldable pub mkenvid : ℕ → Cmd Kernel ℕ
mkenvid e k =
    let i : ℕ = (k.made + 1) % 2 ^ 32 in ok (bit_or (i * 2 ^ 11 % 2 ^ 32) e) (record k { made = i })

-- ENVX
unfoldable pub envx : ℕ → ℕ
envx envid = bit_and envid 1023

-- Step 2 of `envid2env`
unfoldable pub check_perm : ℕ → Cmd Kernel ℕ
unfolding the_curenv
check_perm e = do
  c ← the_curenv
  (λ k. if e != c && (k.envs e).parent_id != (k.envs c).id then err bad_env k else ok e k)

unfoldable pub envid2env : (envid : ℕ) (checkperm : Bool) → Cmd Kernel ℕ
unfolding the_curenv envx check_perm
envid2env envid checkperm k =
    if envid == 0
    then the_curenv k
    else (let e : ℕ = envx envid in
        if (k.envs e).status == status_free || (k.envs e).id != envid
        then err bad_env k
        else if checkperm
        then check_perm e k
        else ok e k)

-- the entries from PDX(UTOP) to PDX(UVPT) of the template, and the one that maps the tables
unfoldable pub copy_template : (base dir : ℕ) → Mem → Mem
copy_template base dir m = record m {
  words = λ w.
      if w / 1024 == dir && leb 509 (w % 1024) && ltb (w % 1024) 511
      then m.words (base * 1024 + w % 1024)
      else m.words w;
}

unfoldable pub env_setup_vm : ℕ → Cmd Kernel (Unit {0})
unfolding on_mem page_alloc set_ref set_env copy_template set_word
env_setup_vm e = do
  p ← on_mem page_alloc
  modify (λ k. record k { mem = set_ref p ((k.mem.ref p + 1) % 2 ^ 16) k.mem })
  modify (set_env e (λ x. record x { pgdir = p }))
  modify (λ k. record k { mem = copy_template k.base_pgdir p k.mem })
  modify (λ k. record k { mem = set_word (p * 1024 + 511) (bit_or (p * 2 ^ 12) pte_v) k.mem })

-- STATUS_IM4 | STATUS_KUp | STATUS_IEp
abbrev pub status_user : ℕ
status_user = 4096 + 8 + 4

-- Steps 3 to 5 of `env_alloc`, for the first of the free list, once `mkenvid` has returned
unfoldable pub fill_env : (parent e : ℕ) → List ℕ → (id : ℕ) → Cmd Kernel ℕ
unfolding set_env with_asids update
fill_env parent e rest id = do
  modify (set_env e (λ x. record x { id = id }))
  a ← (λ k. with_asids k (asid_alloc k.asid_bitmap))
  modify (set_env e (λ x. record x { asid = a }))
  modify (set_env e (λ x. record x { parent_id = parent }))
  modify (
      set_env e (λ x. record x {
        tf = record x.tf { cp0_status = status_user; regs = update x.tf.regs 29 (ustacktop - 8) };
      }))
  modify (λ k. record k { env_free_list = rest })
  pure e

unfoldable pub init_env : (parent e : ℕ) → List ℕ → Cmd Kernel ℕ
unfolding set_env mkenvid fill_env
init_env parent e rest = do
  modify (set_env e (λ x. record x { user_tlb_mod_entry = 0; runs = 0 }))
  id ← mkenvid e
  fill_env parent e rest id

-- the result of `env_setup_vm` is not looked at
unfoldable pub alloc_env : (parent : ℕ) → List ℕ → Cmd Kernel ℕ
unfolding ignored env_setup_vm init_env
alloc_env parent [] = fail no_free_env
alloc_env parent (e ∷ rest) = do (λ k. ignored (env_setup_vm e k)); init_env parent e rest

unfoldable pub env_alloc : (parent : ℕ) → Cmd Kernel ℕ
unfolding alloc_env
env_alloc parent k = alloc_env parent k.env_free_list k
