-- ===== src/Kern/Env/Ids.antt =====
-- Environment identifiers: the index in the low ten bits, a counter above.
use Prim.Native.Nat.{bit_or}
use buaa_os_mos_with_fat.Base.{
  ℕ, ◌+◌, ◌*◌, ◌/◌, ◌%◌, ◌^◌, ◌<◌, ◌≡◌, ◌≢◌, refl, Bool, true, false, ◌&&◌, ◌||◌, ◌==◌, ◌!=◌,
  Option, some, bad_env, Run, ok, err, arith, Bool-cases, ◌⊎◌, inl, inr, sym, ap, ◌∙◌,
}
use buaa_os_mos_with_fat.Base.Bits.{bit_and-odd, bit_and-zero, bit_or-disjoint}
use buaa_os_mos_with_fat.Kern.Env.{
  Kernel, status_free, current, the_curenv, mkenvid, envx, check_perm, envid2env,
}

pub envx_lem : (w : ℕ) → envx w ≡ w % 1024
unfolding envx
envx_lem w =
    rw
      (
        bit_and-odd w 511,
        bit_and-odd (w / 2) 255,
        bit_and-odd (w / 2 / 2) 127,
        bit_and-odd (w / 2 / 2 / 2) 63,
        bit_and-odd (w / 2 / 2 / 2 / 2) 31,
        bit_and-odd (w / 2 / 2 / 2 / 2 / 2) 15,
        bit_and-odd (w / 2 / 2 / 2 / 2 / 2 / 2) 7,
        bit_and-odd (w / 2 / 2 / 2 / 2 / 2 / 2 / 2) 3,
        bit_and-odd (w / 2 / 2 / 2 / 2 / 2 / 2 / 2 / 2) 1,
        bit_and-odd (w / 2 / 2 / 2 / 2 / 2 / 2 / 2 / 2 / 2) 0,
        bit_and-zero (w / 2 / 2 / 2 / 2 / 2 / 2 / 2 / 2 / 2 / 2) w (omega arith),
      )
      (omega arith)

-- the identifier that `mkenvid` makes when its counter was at `made`
abbrev pub id_of : (made e : ℕ) → ℕ
id_of made e = (made + 1) % 2 ^ 21 * 2 ^ 11 + e

pub mkenvid_lem :
    (e : ℕ) (k : Kernel)
    → e < 1024
    → mkenvid e k ≡ ok (id_of k.made e) (record k { made = (k.made + 1) % 2 ^ 32 })
unfolding mkenvid
mkenvid_lem e k h =
    let high : (k.made + 1) % 2 ^ 32 * 2 ^ 11 % 2 ^ 32 ≡ (k.made + 1) % 2 ^ 21 * 2 ^ 11 =
      omega arith in
    ap (λ x. ok x (record k { made = (k.made + 1) % 2 ^ 32 }))
      (ap (λ x. bit_or x e) high ∙ bit_or-disjoint 11 ((k.made + 1) % 2 ^ 21) e (omega arith))

current_lem : (o : Option ℕ) (c : ℕ) (k : Kernel) → o ≡ some c → current o k ≡ ok c k
unfolding current
current_lem o c k h = rw h refl

pub the_curenv_lem : (k : Kernel) (c : ℕ) → k.curenv ≡ some c → the_curenv k ≡ ok c k
unfolding the_curenv
the_curenv_lem k c h = current_lem k.curenv c k h

-- the environment e has the identifier, and the caller c may have it if permission is asked for
pub record IsMeant (k : Kernel) (c envid : ℕ) (checkperm : Bool) (e : ℕ) : Type 0 where
  pub index : e ≡ envid % 1024
  pub used : (k.envs e).status ≢ status_free
  pub own_id : (k.envs e).id ≡ envid
  pub allowed : checkperm ≡ true → (e ≡ c) ⊎ ((k.envs e).parent_id ≡ (k.envs c).id)

-- What `envid2env` may return.
abbrev pub Answer : Kernel → (c envid : ℕ) → (checkperm : Bool) → Run Kernel ℕ → Type 0
Answer k c envid checkperm (ok e t) =
    (t ≡ k) × (((envid ≡ 0) × (e ≡ c)) ⊎ ((envid ≢ 0) × IsMeant k c envid checkperm e))
Answer k c envid checkperm (err code t) =
    (t ≡ k) × (code ≡ bad_env) × (envid ≢ 0) × ((e : ℕ) → IsMeant k c envid checkperm e → ⊥)
Answer k c envid checkperm Run.panic = ⊥

module _ (k : Kernel) (c envid : ℕ) (cur : k.curenv ≡ some c) (real : envid ≢ 0) where
  abbrev found : ℕ
  found = envx envid

  index_lem : found ≡ envid % 1024
  index_lem = envx_lem envid

  refused :
      (checkperm : Bool)
      → ((IsMeant k c envid checkperm found) → ⊥)
      → Answer k c envid checkperm (err bad_env k)
  refused checkperm never = (refl, refl, real, λ e m. never (rw (index_lem ∙ sym m.index) m))

  accepted :
      (checkperm : Bool)
      → ((k.envs found).status == status_free || (k.envs found).id != envid) ≡ false
      → (checkperm ≡ true → (found ≡ c) ⊎ ((k.envs found).parent_id ≡ (k.envs c).id))
      → IsMeant k c envid checkperm found
  accepted checkperm fits may = record {
    index = index_lem;
    used = λ e. ground arith;
    own_id = ground arith;
    allowed = may;
  }

  check_perm-Answer :
      ((k.envs found).status == status_free || (k.envs found).id != envid) ≡ false
      → Answer k c envid true (check_perm found k)
  unfolding check_perm
  check_perm-Answer fits =
      elim (Bool-cases (found != c && (k.envs found).parent_id != (k.envs c).id)) [
        | inl stranger ↦
            rw (the_curenv_lem k c cur, stranger)
              (refused true
                (λ m. elim (m.allowed refl) [ inl same ↦ ground arith | inr child ↦ ground arith ]))
        | inr mine ↦
            rw (the_curenv_lem k c cur, mine)
              (refl, inr (real, accepted true fits (λ _. ground arith)))
      ]

  unfree :
      (checkperm : Bool)
      → ((k.envs found).status == status_free || (k.envs found).id != envid) ≡ true
      → IsMeant k c envid checkperm found
      → ⊥
  unfree checkperm bad m = let a = m.used in let b = m.own_id in ground arith

-- `envid2env` returns the calling environment for identifier 0; for another identifier the
-- environment at its index if it is not free, has that identifier and, where permission is asked
-- for, is the caller or a child of it; and else -E_BAD_ENV. It changes nothing.
pub envid2env-Answer :
    (k : Kernel) (c envid : ℕ) (checkperm : Bool)
    → k.curenv ≡ some c
    → Answer k c envid checkperm (envid2env envid checkperm k)
unfolding envid2env
envid2env-Answer k c envid checkperm cur = elim (Bool-cases (envid == 0)) [
  | inl zero_id ↦ rw (zero_id, the_curenv_lem k c cur) (refl, inl (ground arith, refl))
  | inr other ↦
      let real : envid ≢ 0 = λ e. ground arith in
      elim (Bool-cases
        ((k.envs (envx envid)).status == status_free || (k.envs (envx envid)).id != envid)) [
          | inl bad ↦
              rw (other, bad)
                (refused k c envid cur real checkperm (unfree k c envid cur real checkperm bad))
          | inr fits ↦ elim (Bool-cases checkperm) [
            | inl asked ↦ rw (other, fits, asked) (check_perm-Answer k c envid cur real fits)
            | inr free ↦
                rw (other, fits, free)
                  (refl, inr (real, accepted k c envid cur real false fits (λ e. cc e)))
          ]
        ]
]
