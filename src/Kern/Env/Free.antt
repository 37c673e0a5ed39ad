-- ===== src/Kern/Env/Free.antt =====
-- kern/env.c: `env_free`, `env_destroy`, and `env_run` up to the switch to user mode.
use Prim.Native.Nat.{bit_or}
use buaa_os_mos_with_fat.Base.{
  ℕ, zero, suc, ◌+◌, ◌*◌, ◌%◌, ◌^◌, Bool, true, false, ◌==◌, ltb, if◌then◌else◌, ◌∷◌, Option, none,
  some, Run, ok, err, panic, Cmd, pure, modify, ◌>>=◌, ◌>>◌,
}
use buaa_os_mos_with_fat.Kern.Asid.{asid_free}
use buaa_os_mos_with_fat.Kern.Pages.{
  Mem, is_valid, ppn, page_decref, page_remove, tlb_invalidate, set_word,
}
use buaa_os_mos_with_fat.Kern.Sched.{Sched, schedule}
use buaa_os_mos_with_fat.Kern.Env.{
  Kernel, status_free, status_runnable, uvpt, set_env, on_mem, sched_remove,
}

-- the pages of one page table: the rounds that are left, and `pteno`
unfoldable pub free_entries : ℕ → (pteno pdeno table dir asid : ℕ) → Cmd Mem (Unit {0})
unfolding page_remove
free_entries zero pteno pdeno table dir asid = pure tt
free_entries (suc rounds) pteno pdeno table dir asid = do
  (λ m.
      if is_valid (m.words (table * 1024 + pteno))
      then page_remove dir asid (bit_or (pdeno * 2 ^ 22) (pteno * 2 ^ 12)) m
      else ok tt m)
  free_entries rounds (pteno + 1) pdeno table dir asid

-- one page table; `KADDR` and `pa2page` panic beyond the end of memory
unfoldable pub free_table : (pdeno table dir asid : ℕ) → Cmd Mem (Unit {0})
unfolding free_entries set_word page_decref tlb_invalidate
free_table pdeno table dir asid m =
    if ltb table m.npage
    then (do
      free_entries 1024 0 pdeno table dir asid
      modify (set_word (dir * 1024 + pdeno) 0)
      page_decref table
      modify (tlb_invalidate asid (uvpt + pdeno * 2 ^ 12)))
        m
    else panic

unfoldable pub free_tables : ℕ → (pdeno dir asid : ℕ) → Cmd Mem (Unit {0})
unfolding free_table
free_tables zero pdeno dir asid = pure tt
free_tables (suc rounds) pdeno dir asid = do
  (λ m.
      if is_valid (m.words (dir * 1024 + pdeno))
      then free_table pdeno (ppn (m.words (dir * 1024 + pdeno))) dir asid m
      else ok tt m)
  free_tables rounds (pdeno + 1) dir asid

-- the address space and its directory: all entries below PDX(UTOP)
unfoldable pub free_space : (dir asid : ℕ) → Cmd Mem (Unit {0})
unfolding free_tables page_decref
free_space dir asid = do free_tables 509 0 dir asid; page_decref dir

-- the environment itself
unfoldable pub retire : ℕ → Cmd Kernel (Unit {0})
unfolding set_env tlb_invalidate sched_remove
retire e = do
  modify (λ k. record k { asid_bitmap = asid_free (k.envs e).asid k.asid_bitmap })
  modify (λ k. record k { mem = tlb_invalidate (k.envs e).asid (uvpt + 511 * 2 ^ 12) k.mem })
  modify (set_env e (λ x. record x { status = status_free }))
  modify (λ k. record k { env_free_list = e ∷ k.env_free_list })
  sched_remove e

unfoldable pub env_free : ℕ → Cmd Kernel (Unit {0})
unfolding on_mem free_space retire
env_free e k = (do on_mem (free_space (k.envs e).pgdir (k.envs e).asid); retire e) k

-- `env_run`; the registers of the environment are then those of the processor
unfoldable pub save_frame : Option ℕ → Kernel → Kernel
unfolding set_env
save_frame none k = k
save_frame (some c) k = set_env c (λ x. record x { tf = k.frame }) k

unfoldable pub env_run : ℕ → Cmd Kernel ℕ
unfolding save_frame set_env
env_run e k =
    if (k.envs e).status == status_runnable
    then (let s : Kernel = save_frame k.curenv k in
        let t : Kernel =
          set_env e (λ x. record x { runs = (x.runs + 1) % 2 ^ 32 })
            (record s { curenv = some e }) in
        ok e (record t { cur_pgdir = (t.envs e).pgdir; frame = (t.envs e).tf }))
    else panic

-- what `schedule` sees of the kernel
abbrev pub sched_of : Kernel → Sched
sched_of k = record {
  cur = k.curenv;
  count = k.count;
  queue = k.env_sched_list;
  runnable = λ e. (k.envs e).status == status_runnable;
  pri = λ e. (k.envs e).pri;
}

-- what it does to the kernel, up to its call of `env_run`
unfoldable pub run_picked : Kernel → Run Sched ℕ → Run Kernel ℕ
unfolding env_run
run_picked k (ok e s) = env_run e (record k { count = s.count; env_sched_list = s.queue })
run_picked k (err e s) = panic
run_picked k Run.panic = panic

unfoldable pub switch : (yield : Bool) → Cmd Kernel ℕ
unfolding run_picked schedule
switch yield k = run_picked k (schedule yield (sched_of k))

abbrev pub is_current : ℕ → Option ℕ → Bool
is_current e none = false
is_current e (some c) = c == e

-- `none` if it returns, else the environment that runs next
unfoldable pub env_destroy : ℕ → Cmd Kernel (Option ℕ)
unfolding env_free switch
env_destroy e = do
  env_free e
  (λ k.
      if is_current e k.curenv
      then (do next ← switch true; pure (some next)) (record k { curenv = none })
      else ok none k)
