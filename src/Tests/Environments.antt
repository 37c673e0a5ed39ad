-- ===== src/Tests/Environments.antt =====
-- Three environments: 0 runs, its child 1 waits for a message, and 2 can run.
use buaa_os_mos_with_fat.Base.{
  ℕ, ◌≡◌, refl, true, false, ◌==◌, if◌then◌else◌, [], ◌∷◌, some, arith, ok,
}
use buaa_os_mos_with_fat.Kern.Env.{
  Trapframe, Env, Kernel, envid2env, check_perm, the_curenv, current, times,
}
use buaa_os_mos_with_fat.Kern.Env.Ids.{Answer, envid2env-Answer, envx_lem}
use buaa_os_mos_with_fat.Kern.Env.Queue.{IsQueued}
use buaa_os_mos_with_fat.Kern.Syscalls.{
  sys_exofork, is_illegal_va, sys_mem_map, sys_set_env_status, sys_ipc_try_send, sys_ipc_recv,
}
use buaa_os_mos_with_fat.Kern.Syscalls.Status.{StatusSet, sys_set_env_status-StatusSet}
use buaa_os_mos_with_fat.Kern.Syscalls.Messages.{Sent, sys_ipc_try_send-Sent}
use buaa_os_mos_with_fat.Kern.Syscalls.Receive.{Received, sys_ipc_recv-Received}
use buaa_os_mos_with_fat.Kern.Syscalls.Mapping.{Shared, sys_mem_map-Shared}
use buaa_os_mos_with_fat.Kern.Syscalls.Fork.{Forked, sys_exofork-Forked}
use buaa_os_mos_with_fat.Tests.Pages.{mem, space}

abbrev frame : Trapframe
frame = record {
  regs = λ i. 0;
  cp0_status = 0;
  hi = 0;
  lo = 0;
  cp0_badvaddr = 0;
  cp0_cause = 0;
  cp0_epc = 0;
}

abbrev unused : Env
unused = record {
  tf = frame;
  id = 0;
  asid = 0;
  parent_id = 0;
  status = 0;
  pgdir = 1;
  pri = 1;
  ipc_value = 0;
  ipc_from = 0;
  ipc_recving = 0;
  ipc_dstva = 0;
  ipc_perm = 0;
  user_tlb_mod_entry = 0;
  runs = 0;
}

abbrev table : ℕ → Env
table i =
    if i == 0
    then record unused { id = 2048; status = 1 }
    else if i == 1
    then record unused { id = 4097; status = 2; parent_id = 2048; ipc_recving = 1; asid = 1 }
    else if i == 2
    then record unused { id = 6146; status = 1; asid = 2 }
    else unused

abbrev kernel : Kernel
kernel = record {
  envs = table;
  curenv = some 0;
  env_free_list = 3 ∷ 4 ∷ [];
  env_sched_list = 0 ∷ 2 ∷ [];
  base_pgdir = 0;
  cur_pgdir = 1;
  asid_bitmap = λ w. if w == 0 then 7 else 0;
  made = 3;
  count = 1;
  frame = frame;
  mem = mem;
}

kernel-IsQueued : IsQueued kernel
unfolding times
kernel-IsQueued = record { once = λ i. ground arith; known = λ i. ground arith }

child : envid2env 4097 false kernel ≡ ok 1 kernel
unfolding envid2env
child = rw (envx_lem 4097) refl

envid2env-Answer_example : Answer kernel 0 4097 true (envid2env 4097 true kernel)
envid2env-Answer_example = envid2env-Answer kernel 0 4097 true refl

sys_set_env_status-StatusSet_example : StatusSet kernel 4097 1 (sys_set_env_status 4097 1 kernel)
sys_set_env_status-StatusSet_example =
    sys_set_env_status-StatusSet kernel 0 4097 1 refl kernel-IsQueued (λ e. omega arith)

sys_ipc_try_send-Sent_example : Sent kernel 1 0 42 0 (sys_ipc_try_send 4097 42 0 0 kernel)
sys_ipc_try_send-Sent_example =
    sys_ipc_try_send-Sent kernel 4097 1 0 42 0 refl kernel-IsQueued child (λ waits e. omega arith)

sys_ipc_recv-Received_example : Received kernel 0 0 (sys_ipc_recv 0 kernel)
sys_ipc_recv-Received_example = sys_ipc_recv-Received kernel 0 0 refl kernel-IsQueued refl

the_child : envid2env 4097 true kernel ≡ ok 1 kernel
unfolding envid2env check_perm the_curenv current
the_child = rw (envx_lem 4097) refl

myself : envid2env 0 true kernel ≡ ok 0 kernel
unfolding envid2env the_curenv current
myself = refl

sys_mem_map-Shared_example :
    Shared kernel 1 4186112 0 4194304 1024 (sys_mem_map 4097 4186112 0 4194304 1024 kernel)
unfolding is_illegal_va
sys_mem_map-Shared_example =
    sys_mem_map-Shared kernel 4097 1 4186112 0 0 4194304 1024 the_child myself space space refl refl

sys_exofork-Forked_example : Forked kernel 0 4 (sys_exofork kernel)
sys_exofork-Forked_example =
    sys_exofork-Forked kernel 0 4 (5 ∷ []) kernel-IsQueued refl (λ e. omega arith) refl
      (omega arith) ((omega arith, refl), ((omega arith, refl), tt)) (omega arith)
