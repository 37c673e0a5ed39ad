-- ===== src/Kern/Syscalls/Fork.antt =====
-- `sys_exofork`: the caller gets a child, which it may name.
use buaa_os_mos_with_fat.Base.{
  ℕ, ◌+◌, ◌^◌, ◌<◌, ◌≡◌, ◌≢◌, refl, true, ◌==◌, if◌then◌else◌, List, [], ◌∷◌, some, no_free_env,
  Run, ok, err, and_then, arith, ◌⊎◌, inl, inr, sym, ap, ◌∙◌,
}
use buaa_os_mos_with_fat.Base.Bitmap.{Words, test_bit}
use buaa_os_mos_with_fat.Kern.Asid.{nasid, Scanned, asid_alloc-smallest}
use buaa_os_mos_with_fat.Kern.Pages.Map.{AllPages}
use buaa_os_mos_with_fat.Kern.Env.{
  Kernel, status_not_runnable, set_env, with_asids, envid2env, env_alloc, alloc_env,
}
use buaa_os_mos_with_fat.Kern.Env.Alloc.{SetUp, setup_lem, alloc_env_lem, named, dressed}
use buaa_os_mos_with_fat.Kern.Env.Ids.{id_of, the_curenv_lem, IsMeant, Answer, envid2env-Answer}
use buaa_os_mos_with_fat.Kern.Env.Queue.{IsQueued, AtStatus, IsQueued-idle}
use buaa_os_mos_with_fat.Kern.Syscalls.{sys_exofork}
use buaa_os_mos_with_fat.Kern.Syscalls.Child.{
  finish, final, final-id, final-parent, final-regs, final-pgdir, final-status, final-other,
  final-pri, final-list, final-curenv,
}

-- What `sys_exofork` may return to the caller c, when p is the first free page.
abbrev pub Forked : Kernel → (c p : ℕ) → Run Kernel ℕ → Type 0
Forked k c p (ok id t) =
    (e : ℕ) × ((k.envs e).status ≡ 0)
    × (envid2env id true t ≡ ok e t)
    × IsQueued t
    × AtStatus k e status_not_runnable t
    × ((t.envs e).parent_id ≡ (k.envs c).id)
    × ((t.envs e).pri ≡ (k.envs c).pri)
    × ((t.envs e).tf.regs 2 ≡ 0)
    × ((t.envs e).pgdir ≡ p)
Forked k c p (err code t) =
    (code ≡ no_free_env)
    × ((k.env_free_list ≡ []) ⊎ ((j : ℕ) → j < nasid → test_bit k.asid_bitmap j ≡ true))
Forked k c p Run.panic = ⊥

-- an environment that fits the identifier is the one that is found
meant_found :
    (k : Kernel) (c envid e : ℕ) (r : Run Kernel ℕ)
    → envid ≢ 0
    → IsMeant k c envid true e
    → Answer k c envid true r
    → r ≡ ok e k
meant_found k c envid e (ok i t) real meant (same, inl (no_id, _)) = absurd (real no_id)
meant_found k c envid e (ok i t) real meant (same, inr (_, other)) =
    ap (λ x. ok x t) (other.index ∙ sym meant.index) ∙ ap (ok e) same
meant_found k c envid e (err code t) real meant (_, _, _, never) = absurd (never e meant)
meant_found k c envid e Run.panic real meant no_way = absurd no_way

module _ (k : Kernel) (c e p : ℕ) (rest : List ℕ) (t : Kernel) (s : SetUp k t) (v : IsQueued k)
    (dir : (t.envs e).pgdir ≡ p) (cur : k.curenv ≡ some c) (alive : (k.envs c).status ≢ 0)
    (low : e < 1024) (unused : (k.envs e).status ≡ 0) (few : k.made + 1 < 2 ^ 21) where
  c_ne_e : c ≢ e
  c_ne_e h = alive (ap (λ i. (k.envs i).status) h ∙ unused)

  module _ (a : ℕ) (b : Words) where
    abbrev g : Kernel
    g = final e c (k.envs c).id a rest b t

    abbrev new_id : ℕ
    new_id = id_of t.made e

    id_small : t.made + 1 < 2 ^ 21
    id_small = omega (arith, s.made, few)

    status_lem : AtStatus k e status_not_runnable g
    status_lem i =
        final-status t e c (k.envs c).id a rest b i
        ∙ ap (λ x. if i == e then status_not_runnable else x) ((s.same i).status)

    queue : IsQueued g
    queue =
        IsQueued-idle k g v e status_not_runnable (λ h. omega (arith, unused)) (λ h. omega arith)
          (omega arith) (final-list t e c (k.envs c).id a rest b ∙ s.list) status_lem

    caller_id : (g.envs c).id ≡ (k.envs c).id
    caller_id = ap (λ x. x.id) (final-other t e c (k.envs c).id a rest b c c_ne_e) ∙ (s.same c).id

    child_status : (g.envs e).status ≡ status_not_runnable
    child_status = ground (arith, status_lem e)

    meant : IsMeant g c new_id true e
    meant = record {
      index = omega arith;
      used = λ h. omega (arith, child_status);
      own_id = final-id t e c (k.envs c).id a rest b;
      allowed = λ _. inr (final-parent t e c (k.envs c).id a rest b ∙ sym caller_id);
    }

    Forked-ok : Forked k c p (ok (g.envs e).id g)
    Forked-ok = (
      e,
      unused,
      ap (λ x. envid2env x true g) (final-id t e c (k.envs c).id a rest b)
          ∙ meant_found g c new_id e _ (λ h. omega arith) meant
              (envid2env-Answer g c new_id true
                (final-curenv t e c (k.envs c).id a rest b ∙ s.curenv ∙ cur)),
      queue,
      status_lem,
      final-parent t e c (k.envs c).id a rest b,
      final-pri t e c (k.envs c).id a rest b c_ne_e ∙ (s.same c).pri,
      final-regs t e c (k.envs c).id a rest b,
      final-pgdir t e c (k.envs c).id a rest b ∙ dir,
    )

  named-asids : (named e t).asid_bitmap ≡ k.asid_bitmap
  unfolding set_env
  named-asids = s.asids

  finish-Forked :
      (r : Run Words ℕ)
      → Scanned nasid 0 (named e t).asid_bitmap r
      → Forked k c p (
          and_then
            (and_then (with_asids (named e t) r) (λ a n. ok e (dressed e (k.envs c).id rest a n)))
            (finish c))
  unfolding with_asids
  finish-Forked (ok a b) _ = Forked-ok a b
  finish-Forked (err code b) (is, _, all) = (
    is,
    inr (λ j h. ap (λ w. test_bit w j) (sym named-asids) ∙ all j (omega arith) (omega arith)),
  )
  finish-Forked Run.panic no_way = no_way

fork_lem :
    (k : Kernel) (c : ℕ) (r : Run Kernel ℕ)
    → k.curenv ≡ some c
    → alloc_env (k.envs c).id k.env_free_list k ≡ r
    → sys_exofork k ≡ and_then r (finish c)
unfolding sys_exofork env_alloc
fork_lem k c r cur is = rw (the_curenv_lem k c cur) (ap (λ q. and_then q (finish c)) is)

alloc_list :
    (k : Kernel) (parent : ℕ) (q q' : List ℕ)
    → q ≡ q'
    → alloc_env parent q k ≡ alloc_env parent q' k
alloc_list k parent q q' is = ap (λ x. alloc_env parent x k) is

alloc-Forked :
    (k : Kernel) (c p : ℕ) (more free : List ℕ)
    → IsQueued k
    → k.curenv ≡ some c
    → (k.envs c).status ≢ 0
    → k.mem.free ≡ p ∷ more
    → p < k.mem.npage
    → k.made + 1 < 2 ^ 21
    → k.env_free_list ≡ free
    → AllPages (λ e. (e < 1024) × ((k.envs e).status ≡ 0)) free
    → Forked k c p (and_then (alloc_env (k.envs c).id free k) (finish c))
unfolding alloc_env
alloc-Forked k c p more [] v cur alive page real few is _ = (refl, inl is)
alloc-Forked k c p more (e ∷ rest) v cur alive page real few is ((low, unused), _) =
    let (t, run, s, dir) = setup_lem k e p more page real in
    rw (alloc_env_lem k t e (k.envs c).id rest _ low run refl)
      (finish-Forked k c e p rest t s v dir cur alive low unused few _ (asid_alloc-smallest _))

-- When `env_sched_list` is in step with the statuses, the caller is not free, the free list has
-- free environments only, a page p is the first of the free pages and fewer than 2 ^ 21
-- identifiers have been made, `sys_exofork` either returns an identifier under which the caller may
-- name an environment that was free and now can not run, a child of the caller with its priority,
-- with p as its page directory and 0 as its result, while the others keep their statuses and the
-- list is in step; or it fails with -E_NO_FREE_ENV because no environment is free or all address
-- space identifiers are in use.
pub sys_exofork-Forked :
    (k : Kernel) (c p : ℕ) (more : List ℕ)
    → IsQueued k
    → k.curenv ≡ some c
    → (k.envs c).status ≢ 0
    → k.mem.free ≡ p ∷ more
    → p < k.mem.npage
    → AllPages (λ e. (e < 1024) × ((k.envs e).status ≡ 0)) k.env_free_list
    → k.made + 1 < 2 ^ 21
    → Forked k c p (sys_exofork k)
sys_exofork-Forked k c p more v cur alive page real free few =
    rw (fork_lem k c _ cur refl)
      (alloc-Forked k c p more k.env_free_list v cur alive page real few refl free)
