-- ===== src/Kern/Env/Alloc.antt =====
-- `env_alloc`, step by step.
use buaa_os_mos_with_fat.Base.{
  ℕ, ◌+◌, ◌-◌, ◌*◌, ◌%◌, ◌^◌, ◌<◌, ◌≡◌, refl, true, ◌==◌, List, ◌∷◌, Run, ok, and_then, arith,
  Bool-cases, inl, inr, ap, ◌∙◌,
}
use buaa_os_mos_with_fat.Base.Bitmap.{Words, update}
use buaa_os_mos_with_fat.Kern.Asid.{asid_alloc}
use Prim.Native.Nat.{bit_or}
use buaa_os_mos_with_fat.Kern.Pages.{Mem, pte_v, set_ref, set_word, zero_page}
use buaa_os_mos_with_fat.Kern.Pages.Insert.{alloc_first}
use buaa_os_mos_with_fat.Kern.Env.{
  Env, Kernel, status_user, ustacktop, set_env, with_mem, with_asids, on_mem, ignored,
  copy_template, env_setup_vm, fill_env, init_env, alloc_env,
}
use buaa_os_mos_with_fat.Kern.Env.Ids.{id_of, mkenvid_lem}

-- an environment but for its page directory
pub record SameButDir (x y : Env) : Type 0 where
  pub id : y.id ≡ x.id
  pub status : y.status ≡ x.status
  pub parent_id : y.parent_id ≡ x.parent_id
  pub pri : y.pri ≡ x.pri

-- What `env_setup_vm` does to the kernel, whether it fails or not.
pub record SetUp (k t : Kernel) : Type 0 where
  pub curenv : t.curenv ≡ k.curenv
  pub list : t.env_sched_list ≡ k.env_sched_list
  pub asids : t.asid_bitmap ≡ k.asid_bitmap
  pub made : t.made ≡ k.made
  pub same : (i : ℕ) → SameButDir (k.envs i) (t.envs i)

set_dir :
    (k : Kernel) (e p : ℕ) (i : ℕ)
    → SameButDir (k.envs i) ((set_env e (λ x. record x { pgdir = p }) k).envs i)
unfolding set_env
set_dir k e p i = elim (Bool-cases (i == e)) [
  | inl here ↦
      let h : i ≡ e = ground arith in
      rw (here, h) (record { id = refl; status = refl; parent_id = refl; pri = refl })
  | inr other ↦ rw other (record { id = refl; status = refl; parent_id = refl; pri = refl })
]

-- Steps 2 and 3 of `env_setup_vm` on the page p
abbrev set_up : (e p : ℕ) → Kernel → Kernel
set_up e p k =
    let held : Kernel = record k { mem = set_ref p ((k.mem.ref p + 1) % 2 ^ 16) k.mem } in
    let own : Kernel = set_env e (λ x. record x { pgdir = p }) held in
    let copied : Kernel = record own { mem = copy_template own.base_pgdir p own.mem } in
    record copied { mem = set_word (p * 1024 + 511) (bit_or (p * 2 ^ 12) pte_v) copied.mem }

set_up-SetUp : (k : Kernel) (e p : ℕ) (m : Mem) → SetUp k (set_up e p (record k { mem = m }))
unfolding set_env
set_up-SetUp k e p m = record {
  curenv = refl;
  list = refl;
  asids = refl;
  made = refl;
  same = set_dir k e p;
}

set_up-pgdir : (k : Kernel) (e p : ℕ) → ((set_up e p k).envs e).pgdir ≡ p
unfolding set_env
set_up-pgdir k e p = let own : (e == e) ≡ true = ground arith in rw own refl

-- The new environment gets the first free page p for its page directory.
pub setup_lem :
    (k : Kernel) (e p : ℕ) (more : List ℕ)
    → k.mem.free ≡ p ∷ more
    → p < k.mem.npage
    → (t : Kernel) × (ignored (env_setup_vm e k) ≡ ok tt t) × SetUp k t × ((t.envs e).pgdir ≡ p)
unfolding env_setup_vm on_mem with_mem ignored
setup_lem k e p more is real =
    let m : Mem = zero_page p (record k.mem { free = more }) in
    rw (alloc_first k.mem.free k.mem p more is real) (
      set_up e p (record k { mem = m }),
      refl,
      set_up-SetUp k e p m,
      set_up-pgdir (record k { mem = m }) e p,
    )

-- the kernel once the environment has its identifier
abbrev pub named : ℕ → Kernel → Kernel
named e t =
    let fresh : Kernel = set_env e (λ x. record x { user_tlb_mod_entry = 0; runs = 0 }) t in
    set_env e (λ x. record x { id = id_of fresh.made e })
      (record fresh { made = (fresh.made + 1) % 2 ^ 32 })

-- the rest of `env_alloc`
abbrev pub dressed : (e parent : ℕ) → List ℕ → (a : ℕ) → Kernel → Kernel
dressed e parent rest a n =
    let x1 : Kernel = set_env e (λ x. record x { asid = a }) n in
    let x2 : Kernel = set_env e (λ x. record x { parent_id = parent }) x1 in
    let x3 : Kernel =
      set_env e
        (λ x. record x {
          tf = record x.tf { cp0_status = status_user; regs = update x.tf.regs 29 (ustacktop - 8) };
        })
        x2 in
    record x3 { env_free_list = rest }

init_env_lem :
    (t : Kernel) (e parent : ℕ) (rest : List ℕ) (r : Run Words ℕ)
    → e < 1024
    → asid_alloc (named e t).asid_bitmap ≡ r
    → init_env parent e rest t
      ≡ and_then (with_asids (named e t) r) (λ a n. ok e (dressed e parent rest a n))
unfolding init_env fill_env
init_env_lem t e parent rest r low given =
    ap (λ q. and_then q (fill_env parent e rest))
      (mkenvid_lem e (set_env e (λ x. record x { user_tlb_mod_entry = 0; runs = 0 }) t) low)
    ∙ ap (λ r. and_then (with_asids (named e t) r) (λ a n. ok e (dressed e parent rest a n))) given

pub alloc_env_lem :
    (k t : Kernel) (e parent : ℕ) (rest : List ℕ) (r : Run Words ℕ)
    → e < 1024
    → ignored (env_setup_vm e k) ≡ ok tt t
    → asid_alloc (named e t).asid_bitmap ≡ r
    → alloc_env parent (e ∷ rest) k
      ≡ and_then (with_asids (named e t) r) (λ a n. ok e (dressed e parent rest a n))
unfolding alloc_env
alloc_env_lem k t e parent rest r low set given = rw set (init_env_lem t e parent rest r low given)
