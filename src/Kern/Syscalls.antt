-- ===== src/Kern/Syscalls.antt =====
-- kern/syscall_all.c: the system calls on environments, memory and messages. An answer below zero
-- is an error; the trap frame is `frame`.
pub mod Status
pub mod Messages
pub mod Receive
pub mod Mapping
pub mod Child
pub mod Fork
use Prim.Native.Nat.{bit_or}
use buaa_os_mos_with_fat.Base.{
  ℕ, zero, suc, ◌+◌, ◌-◌, ◌*◌, ◌%◌, ◌^◌, Bool, true, false, not, ◌&&◌, ◌||◌, ◌==◌, ◌!=◌, ltb, leb,
  if◌then◌else◌, Option, none, some, Error, inval, ipc_not_recv, Run, ok, err, panic, Cmd, pure,
  fail, get, modify, ◌>>=◌, ◌>>◌,
}
use buaa_os_mos_with_fat.Base.Bitmap.{Words, update}
use buaa_os_mos_with_fat.Kern.Pages.{Mem, pte_v, page_alloc, page_lookup, page_insert, page_remove}
use buaa_os_mos_with_fat.Kern.Env.{
  Trapframe, Env, Kernel, status_runnable, status_not_runnable, set_env, on_mem, the_curenv,
  sched_remove, sched_insert_tail, envid2env, env_alloc,
}
use buaa_os_mos_with_fat.Kern.Env.Free.{env_destroy, switch}

-- UTEMP and UTOP
abbrev pub utemp : ℕ
utemp = 2 ^ 22 - 2 * 2 ^ 12

abbrev pub utop : ℕ
utop = 2 ^ 31 - 3 * 2 ^ 22

unfoldable pub is_illegal_va : ℕ → Bool
is_illegal_va va = ltb va utemp || leb utop va

unfoldable pub is_illegal_va_range : (va len : ℕ) → Bool
is_illegal_va_range va len =
    if len == 0
    then false
    else ltb ((va + len) % 2 ^ 32) va || ltb va utemp || ltb utop ((va + len) % 2 ^ 32)

-- console, disk and clock
unfoldable pub is_illegal_pa_range : (pa len : ℕ) → Bool
is_illegal_pa_range pa len =
    if len == 0
    then false
    else if leb 0x10000000 pa && leb ((pa + len) % 2 ^ 32) 0x10000020
    then false
    else if leb 0x13000000 pa && leb ((pa + len) % 2 ^ 32) 0x13004200
    then false
    else if leb 0x15000000 pa && leb ((pa + len) % 2 ^ 32) 0x15000200
    then false
    else true

-- `if (…) return -E_INVAL;`
unfoldable pub refuse_if : Bool → Cmd Kernel (Unit {0})
refuse_if b k = if b then err inval k else ok tt k

unfoldable pub sys_getenvid : Cmd Kernel ℕ
unfolding the_curenv
sys_getenvid = do c ← the_curenv; (λ k. ok (k.envs c).id k)

unfoldable pub sys_yield : Cmd Kernel ℕ
unfolding switch
sys_yield = switch true

unfoldable pub sys_env_destroy : (envid : ℕ) → Cmd Kernel (Option ℕ)
unfolding envid2env env_destroy
sys_env_destroy envid = do e ← envid2env envid true; env_destroy e

unfoldable pub sys_set_tlb_mod_entry : (envid func : ℕ) → Cmd Kernel (Unit {0})
unfolding envid2env set_env
sys_set_tlb_mod_entry envid func = do
  e ← envid2env envid true
  modify (set_env e (λ x. record x { user_tlb_mod_entry = func }))

-- `page_insert` in the address space of an environment
unfoldable pub insert_at : (e pp va perm : ℕ) → Cmd Kernel (Unit {0})
unfolding on_mem page_insert
insert_at e pp va perm k = on_mem (page_insert (k.envs e).pgdir (k.envs e).asid pp va perm) k

unfoldable pub lookup_at : (e va : ℕ) → Cmd Kernel (Option (ℕ × ℕ))
unfolding on_mem page_lookup
lookup_at e va k = on_mem (page_lookup (k.envs e).pgdir va) k

unfoldable pub sys_mem_alloc : (envid va perm : ℕ) → Cmd Kernel (Unit {0})
unfolding refuse_if is_illegal_va envid2env on_mem page_alloc insert_at
sys_mem_alloc envid va perm = do
  refuse_if (is_illegal_va va)
  e ← envid2env envid true
  pp ← on_mem page_alloc
  insert_at e pp va perm

-- the page that was found, if any, goes into the address space
unfoldable pub map_found : (dst dstva perm : ℕ) → Option (ℕ × ℕ) → Cmd Kernel (Unit {0})
unfolding insert_at
map_found dst dstva perm none = fail inval
map_found dst dstva perm (some (pp, slot)) = insert_at dst pp dstva perm

unfoldable pub share_page : (src srcva dst dstva perm : ℕ) → Cmd Kernel (Unit {0})
unfolding lookup_at map_found
share_page src srcva dst dstva perm = do found ← lookup_at src srcva; map_found dst dstva perm found

unfoldable pub sys_mem_map : (srcid srcva dstid dstva perm : ℕ) → Cmd Kernel (Unit {0})
unfolding refuse_if is_illegal_va envid2env share_page
sys_mem_map srcid srcva dstid dstva perm = do
  refuse_if (is_illegal_va srcva || is_illegal_va dstva)
  src ← envid2env srcid true
  dst ← envid2env dstid true
  share_page src srcva dst dstva perm

unfoldable pub sys_mem_unmap : (envid va : ℕ) → Cmd Kernel (Unit {0})
unfolding refuse_if is_illegal_va envid2env on_mem page_remove
sys_mem_unmap envid va = do
  refuse_if (is_illegal_va va)
  e ← envid2env envid true
  (λ k. on_mem (page_remove (k.envs e).pgdir (k.envs e).asid va) k)

unfoldable pub sys_exofork : Cmd Kernel ℕ
unfolding the_curenv env_alloc set_env update
sys_exofork = do
  c ← the_curenv
  (λ k.
      (do
        e ← env_alloc (k.envs c).id
        modify (λ s.
            set_env e (λ x. record x { tf = record s.frame { regs = update s.frame.regs 2 0 } }) s)
        modify (λ s.
            set_env e (λ x. record x { status = status_not_runnable; pri = (s.envs c).pri }) s)
        (λ s. ok (s.envs e).id s))
        k)

-- Step 3 of `sys_set_env_status`
unfoldable pub requeue : (e status : ℕ) → Cmd Kernel (Unit {0})
unfolding sched_remove sched_insert_tail
requeue e status = do
  (λ k.
      if (k.envs e).status == status_runnable && status == status_not_runnable
      then sched_remove e k
      else ok tt k)
  (λ k.
      if (k.envs e).status == status_not_runnable && status == status_runnable
      then sched_insert_tail e k
      else ok tt k)

unfoldable pub sys_set_env_status : (envid status : ℕ) → Cmd Kernel (Unit {0})
unfolding refuse_if envid2env requeue set_env
sys_set_env_status envid status = do
  refuse_if (status != status_runnable && status != status_not_runnable)
  e ← envid2env envid true
  requeue e status
  modify (set_env e (λ x. record x { status = status }))

-- `given` is the trap frame at the address `tf`
unfoldable pub sys_set_trapframe : (envid tf : ℕ) (given : Trapframe) → Cmd Kernel ℕ
unfolding refuse_if is_illegal_va_range envid2env the_curenv set_env
sys_set_trapframe envid tf given = do
  refuse_if (is_illegal_va_range tf 152)
  e ← envid2env envid true
  c ← the_curenv
  (λ k.
      if e == c
      then ok (given.regs 2) (record k { frame = given })
      else ok 0 (set_env e (λ x. record x { tf = given }) k))

-- Steps 2 to 5 of `sys_ipc_recv`, without the switch
unfoldable pub block : (c dstva : ℕ) → Cmd Kernel (Unit {0})
unfolding set_env sched_remove update
block c dstva = do
  modify (set_env c (λ x. record x { ipc_recving = 1; ipc_dstva = dstva }))
  modify (set_env c (λ x. record x { status = status_not_runnable }))
  sched_remove c
  modify (λ k. record k { frame = record k.frame { regs = update k.frame.regs 2 0 } })

unfoldable pub sys_ipc_recv : (dstva : ℕ) → Cmd Kernel ℕ
unfolding refuse_if is_illegal_va the_curenv block switch
sys_ipc_recv dstva = do
  refuse_if (dstva != 0 && is_illegal_va dstva)
  c ← the_curenv
  block c dstva
  switch true

-- Steps 4 and 5 of `sys_ipc_try_send`
unfoldable pub deliver : (e from value perm : ℕ) → Cmd Kernel (Unit {0})
unfolding set_env sched_insert_tail
deliver e from value perm = do
  modify (λ k.
      set_env e
        (λ x. record x {
          ipc_value = value;
          ipc_from = (k.envs from).id;
          ipc_perm = bit_or pte_v perm;
          ipc_recving = 0;
        })
        k)
  modify (set_env e (λ x. record x { status = status_runnable }))
  sched_insert_tail e

-- Step 6, in which the sender may be the receiver
unfoldable pub send_page : (e from srcva perm : ℕ) → Cmd Kernel (Unit {0})
unfolding share_page
send_page e from srcva perm k =
    if srcva == 0 then ok tt k else share_page from srcva e (k.envs e).ipc_dstva perm k

-- a variable that `envid2env` has not set is followed
unfoldable pub target : Run Kernel ℕ → Run Kernel ℕ
target (ok e k) = ok e k
target (err e k) = panic
target Run.panic = panic

unfoldable pub sys_ipc_try_send : (envid value srcva perm : ℕ) → Cmd Kernel (Unit {0})
unfolding refuse_if is_illegal_va target envid2env the_curenv deliver send_page
sys_ipc_try_send envid value srcva perm = do
  refuse_if (srcva != 0 && is_illegal_va srcva)
  e ← (λ k. target (envid2env envid false k))
  (λ k. if (k.envs e).ipc_recving == 0 then err ipc_not_recv k else ok tt k)
  c ← the_curenv
  deliver e c value perm
  send_page e c srcva perm
