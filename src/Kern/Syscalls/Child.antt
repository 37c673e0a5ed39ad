-- ===== src/Kern/Syscalls/Child.antt =====
-- The fields of the environment that `sys_exofork` makes.
use buaa_os_mos_with_fat.Base.{
  ℕ, ◌≡◌, ◌≢◌, refl, true, false, ◌==◌, List, ok, Cmd, arith, Bool-cases, inl, inr, ap, ◌∙◌,
}
use buaa_os_mos_with_fat.Base.Bitmap.{Words, update}
use buaa_os_mos_with_fat.Kern.Env.{Kernel, status_not_runnable, set_env}
use buaa_os_mos_with_fat.Kern.Env.Alloc.{named, dressed}
use buaa_os_mos_with_fat.Kern.Env.Ids.{id_of}
use buaa_os_mos_with_fat.Kern.Env.Queue.{AtStatus}

-- the last steps of `sys_exofork`
abbrev pub forked : (e c : ℕ) → Kernel → Kernel
forked e c s =
    let copied : Kernel =
      set_env e (λ x. record x { tf = record s.frame { regs = update s.frame.regs 2 0 } }) s in
    set_env e (λ x. record x { status = status_not_runnable; pri = (copied.envs c).pri }) copied

abbrev pub finish : (c e : ℕ) → Cmd Kernel ℕ
finish c e s = ok ((forked e c s).envs e).id (forked e c s)

own : (j : ℕ) → (j == j) ≡ true
own j = ground arith

other_test : (i e : ℕ) → i ≢ e → (i == e) ≡ false
other_test i e ne = ground arith

forked-pri : (e c : ℕ) (s : Kernel) → c ≢ e → ((forked e c s).envs e).pri ≡ (s.envs c).pri
unfolding set_env
forked-pri e c s ne = rw (own e, other_test c e ne) refl

dressed-other :
    (e parent a i : ℕ) (rest : List ℕ) (b : Words) (t : Kernel)
    → i ≢ e
    → (dressed e parent rest a (record (named e t) { asid_bitmap = b })).envs i ≡ t.envs i
unfolding set_env
dressed-other e parent a i rest b t ne = rw (other_test i e ne) refl

-- the kernel after the call, when a is the address space identifier
abbrev pub final : (e c parent a : ℕ) → List ℕ → (b : Words) → Kernel → Kernel
final e c parent a rest b t =
    forked e c (dressed e parent rest a (record (named e t) { asid_bitmap = b }))

module _ (t : Kernel) (e c parent a : ℕ) (rest : List ℕ) (b : Words) where
  abbrev f : Kernel
  f = final e c parent a rest b t

  pub final-id : (f.envs e).id ≡ id_of t.made e
  unfolding set_env
  final-id = rw (own e) refl

  pub final-parent : (f.envs e).parent_id ≡ parent
  unfolding set_env
  final-parent = rw (own e) refl

  pub final-regs : (f.envs e).tf.regs 2 ≡ 0
  unfolding set_env update
  final-regs = rw (own e) refl

  pub final-pgdir : (f.envs e).pgdir ≡ (t.envs e).pgdir
  unfolding set_env
  final-pgdir = rw (own e) refl

  pub final-status : AtStatus t e status_not_runnable f
  unfolding set_env
  final-status i = elim (Bool-cases (i == e)) [ inl here ↦ rw here refl | inr away ↦ rw away refl ]

  pub final-other : (i : ℕ) → i ≢ e → f.envs i ≡ t.envs i
  unfolding set_env
  final-other i ne = rw (other_test i e ne) refl

  pub final-pri : c ≢ e → (f.envs e).pri ≡ (t.envs c).pri
  final-pri ne =
      forked-pri e c (dressed e parent rest a (record (named e t) { asid_bitmap = b })) ne
      ∙ ap (λ x. x.pri) (dressed-other e parent a c rest b t ne)

  pub final-list : f.env_sched_list ≡ t.env_sched_list
  unfolding set_env
  final-list = refl

  pub final-curenv : f.curenv ≡ t.curenv
  unfolding set_env
  final-curenv = refl
