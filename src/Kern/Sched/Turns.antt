-- ===== src/Kern/Sched/Turns.antt =====
-- Every environment of the list has its turn, and its time slices.
use mathlib.Core.List.{append-nil, append_assoc}
use buaa_os_mos_with_fat.Base.{
  ℕ, zero, suc, ◌+◌, ◌-◌, ◌%◌, ◌^◌, ◌<◌, ◌≡◌, refl, Bool, true, false, ◌==◌, if◌then◌else◌, List,
  [], ◌∷◌, ◌++◌, length, Option, none, some, Run, ok, err, panic, and_then, arith, sym, ap, ◌∙◌,
}
use buaa_os_mos_with_fat.Kern.Sched.{
  Sched, remove, contains, needs_pick, rotate, run_env, pick_first, pick, resume, schedule,
}

abbrev pub AllRunnable : (ℕ → Bool) → List ℕ → Type 0
AllRunnable runnable [] = Unit {0}
AllRunnable runnable (e ∷ q) = (runnable e ≡ true) × AllRunnable runnable q

-- the state after n calls of `schedule`, if none panics
unfoldable pub after : Bool → ℕ → Sched → Option Sched
after yield zero s = some s
after yield (suc n) s = elim (schedule yield s) [
  | ok e t ↦ after yield n t
  | err e t ↦ none
  | panic ↦ none
]

after_next :
    (yield : Bool) (n e : ℕ) (s t : Sched)
    → schedule yield s ≡ ok e t
    → after yield (suc n) s ≡ after yield n t
unfolding after
after_next yield n e s t step = rw (after, step) refl

-- the state in which environment e runs
abbrev running : ℕ → Sched → Sched
running e s = record s { cur = some e; count = (s.count + (2 ^ 32 - 1)) % 2 ^ 32 }

stays :
    (o : Option ℕ) (e : ℕ) (s : Sched)
    → o ≡ some e
    → (s.count == 0) ≡ false
    → s.runnable e ≡ true
    → (if needs_pick o false s then pick s.queue s else resume o s) ≡ ok e (running e s)
unfolding needs_pick resume run_env
stays o e s cur more run = rw (cur, more, run) refl

-- An environment that can run keeps the processor for as many calls of `schedule` without `yield`
-- as `count` says, and then has used up its slices.
pub after-count :
    (c e : ℕ) (s : Sched)
    → c < 2 ^ 32
    → s.count ≡ c
    → s.cur ≡ some e
    → s.runnable e ≡ true
    → (t : Sched) × (after false c s ≡ some t)
      × (t.cur ≡ some e)
      × (t.count ≡ 0)
      × (t.queue ≡ s.queue)
unfolding after
after-count zero e s h k cur run = (s, refl, cur, k, refl)
after-count (suc c) e s h k cur run =
    let more : (s.count == 0) ≡ false = ground arith in
    let (t, rest, same, used, list) =
      after-count c e (running e s) (omega arith) (omega arith) refl run in
    (
      t,
      after_next false c e s (running e s) (unfold schedule in stays s.cur e s cur more run) ∙ rest,
      same,
      used,
      list,
    )

-- the state in which e has gone to the tail and the first of the others runs
abbrev turned : ℕ → List ℕ → Sched → Sched
turned f q s = running f (record s { count = s.pri f; queue = f ∷ q })

removed :
    (queue : List ℕ) (e : ℕ) (xs : List ℕ) (s : Sched)
    → queue ≡ e ∷ xs
    → (if contains e queue then ok (remove e queue ++ (e ∷ [])) s else panic)
      ≡ ok (xs ++ (e ∷ [])) s
unfolding remove
removed queue e xs s head = let same : (e == e) ≡ true = ground arith in rw (head, same) refl

rotate_lem :
    (o : Option ℕ) (e : ℕ) (xs : List ℕ) (s : Sched)
    → o ≡ some e
    → s.runnable e ≡ true
    → s.queue ≡ e ∷ xs
    → rotate o s ≡ ok (xs ++ (e ∷ [])) s
unfolding rotate
rotate_lem o e xs s cur run head = rw (cur, run) (removed s.queue e xs s head)

pick_when :
    (o : Option ℕ) (e : ℕ) (s : Sched) (x y : Run Sched ℕ)
    → o ≡ some e
    → (if needs_pick o true s then x else y) ≡ x
unfolding needs_pick
pick_when o e s x y cur = rw cur refl

pick_lem :
    (queue : List ℕ) (e : ℕ) (xs : List ℕ) (s : Sched)
    → queue ≡ e ∷ xs
    → pick queue s ≡ and_then (rotate s.cur s) pick_first
unfolding pick
pick_lem queue e xs s head = rw head refl

pick_first_lem :
    (l : List ℕ) (f : ℕ) (q : List ℕ) (s : Sched) → l ≡ f ∷ q → pick_first l s ≡ ok f (turned f q s)
unfolding pick_first run_env
pick_first_lem l f q s first = rw first refl

schedule-yield :
    (e f : ℕ) (xs q : List ℕ) (s : Sched)
    → s.cur ≡ some e
    → s.queue ≡ e ∷ xs
    → s.runnable e ≡ true
    → xs ++ (e ∷ []) ≡ f ∷ q
    → schedule true s ≡ ok f (turned f q s)
unfolding schedule
schedule-yield e f xs q s cur head run first =
    pick_when s.cur e s (pick s.queue s) (resume s.cur s) cur
    ∙ pick_lem s.queue e xs s head
    ∙ ap (λ r. and_then r pick_first) (rotate_lem s.cur e xs s cur run head)
    ∙ pick_first_lem (xs ++ (e ∷ [])) f q s first

-- the first of a list that is not empty
first_of : (xs : List ℕ) (y : ℕ) (ys : List ℕ) → (f : ℕ) × (q : List ℕ) × (xs ++ (y ∷ ys) ≡ f ∷ q)
first_of [] y ys = (y, ys, refl)
first_of (x ∷ xs) y ys = (x, xs ++ (y ∷ ys), refl)

same_head : (x y : ℕ) (xs ys : List ℕ) → x ∷ xs ≡ y ∷ ys → x ≡ y
same_head x y xs ys e = cc e

-- When the environment at the head of the list runs and those before y can run, as many yields as
-- there are environments before y make y run; it is then at the head, and they are at the tail in
-- their order.
pub after-yields :
    (xs : List ℕ) (y : ℕ) (ys : List ℕ) (s : Sched)
    → s.queue ≡ xs ++ (y ∷ ys)
    → ((e : ℕ) (q : List ℕ) → s.queue ≡ e ∷ q → s.cur ≡ some e)
    → AllRunnable s.runnable xs
    → (t : Sched) × (after true (length xs) s ≡ some t)
      × (t.cur ≡ some y)
      × (t.queue ≡ y ∷ ys ++ xs)
unfolding after
after-yields [] y ys s queue at_head run =
    (s, refl, at_head y ys queue, queue ∙ ap (λ q. y ∷ q) (sym (append-nil ys)))
after-yields (e ∷ xs) y ys s queue at_head (run, others) =
    let (f, q, first) = first_of xs y (ys ++ (e ∷ [])) in
    let tail : (xs ++ (y ∷ ys)) ++ (e ∷ []) ≡ xs ++ (y ∷ ys ++ (e ∷ [])) =
      append_assoc xs (y ∷ ys) (e ∷ []) in
    let step : schedule true s ≡ ok f (turned f q s) =
      schedule-yield e f (xs ++ (y ∷ ys)) q s (at_head e _ queue) queue run (tail ∙ first) in
    let (t, done, cur, rest) =
      after-yields xs y (ys ++ (e ∷ [])) (turned f q s) (sym first)
        (λ g r h. ap some (same_head f g q r h)) others in
    (
      t,
      after_next true (length xs) f s (turned f q s) step ∙ done,
      cur,
      rest ∙ ap (λ l. y ∷ l) (append_assoc ys (e ∷ []) xs),
    )
