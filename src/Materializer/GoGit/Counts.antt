-- ===== src/Materializer/GoGit/Counts.antt =====
-- The numbers of files and bytes that the go-git backend returns are those of the files that it made.
use gitrepo_csi_driver.Base.{
  String, ◌+◌, ◌≡◌, refl, ap, ◌∙◌, Bool, true, false, [], ◌∷◌, ◌++◌, Result, ok, err, if◌then◌else◌,
  length, ok_inj, arith,
}
use gitrepo_csi_driver.Materializer.Action.{
  wrap_result, Action, ◌>>=◌, ◌>>◌, lift, wrap, call, after,
}
use gitrepo_csi_driver.Materializer.Copy.{make_dir, make_link, make_file}
use gitrepo_csi_driver.Materializer.GoGit.Library.{
  Call, cloned, removed_all, made_all, wrote, lchown, Trace,
}
use gitrepo_csi_driver.Materializer.GoGit.Submodules.{no_count}
use gitrepo_csi_driver.Materializer.Limits.{add_counts, Count}

-- What a call adds to the content.
abbrev made_by : Call → Count
made_by (wrote (make_file path mode text)) = record { files = 1; size = length text }
made_by (wrote (make_dir path mode)) = no_count
made_by (wrote (make_link target path)) = no_count
made_by (cloned options) = no_count
made_by (removed_all path) = no_count
made_by (made_all path mode) = no_count
made_by (lchown path uid gid) = no_count

unfoldable pub made : Trace → Count
unfolding add_counts
made [] = no_count
made (c ∷ trace) = add_counts (made_by c) (made trace)

-- Two sums of counts are the same.
abbrev pub SameSum : Count → Count → Count → Count → Type 0
SameSum a b c d = (a.files + b.files ≡ c.files + d.files) × (a.size + b.size ≡ c.size + d.size)

made-snoc :
    (trace : Trace) (c : Call) (b : Count)
    → SameSum (made (trace ++ c ∷ [])) b (made trace) (add_counts b (made_by c))
unfolding made add_counts
made-snoc [] c b = (omega arith, omega arith)
made-snoc (d ∷ trace) c b = let (f, s) = made-snoc trace c b in (omega arith, omega arith)

pub made-snoc_none :
    (trace : Trace) (c : Call) → made_by c ≡ no_count → made (trace ++ c ∷ []) ≡ made trace
unfolding made add_counts
made-snoc_none [] c e = ap (λ k. add_counts k no_count) e ∙ refl
made-snoc_none (d ∷ trace) c e = ap (add_counts (made_by d)) (made-snoc_none trace c e)

-- A step takes a count to another, given by its value, that is larger by what the step makes.
unfoldable pub Makes : {A : Type 0} → Count → (A → Count) → Action Call A → Type 0
Makes {A} before total action =
    (trace : Trace) (value : A)
    → (action trace).0 ≡ ok value
    → SameSum (made (action trace).1) before (made trace) (total value)

pub Makes-call :
    {A : Type 0} (b : Count) (answer : Trace → Result A) (c : Call)
    → Makes b (λ _. add_counts b (made_by c)) (call answer c)
unfolding Makes call
Makes-call b answer c trace value h = made-snoc trace c b

pub Makes-nothing :
    {A : Type 0} (b : Count) (answer : Trace → Result A) (c : Call)
    → made_by c ≡ no_count
    → Makes b (λ _. b) (call answer c)
unfolding Makes call add_counts
Makes-nothing b answer c n trace value h =
    let (f, s) = made-snoc trace c b in
    let nf = ap (λ (k : Count). k.files) n in
    let ns = ap (λ (k : Count). k.size) n in (omega arith, omega arith)

pub Makes-lift : {A : Type 0} (b : Count) (r : Result A) → Makes b (λ _. b) (lift r)
unfolding Makes lift
Makes-lift b r trace value h = (refl, refl)

pub Makes-ok :
    {A : Type 0} (total : A → Count) (value : A) → Makes (total value) total (lift (ok value))
unfolding Makes lift
Makes-ok total value trace v h = (
  ap (λ x. (made trace).files + (total x).files) (ok_inj h),
  ap (λ x. (made trace).size + (total x).size) (ok_inj h),
)

pub Makes-wrap :
    {A : Type 0} (b : Count) (total : A → Count) (format : String) (action : Action Call A)
    → Makes b total action
    → Makes b total (wrap format action)
unfolding Makes wrap
Makes-wrap {A} b total format action h trace value e =
    h trace value (unwrapped (action trace).0 value e)
  where
    unwrapped : (r : Result A) (value : A) → wrap_result format r ≡ ok value → r ≡ ok value
    unwrapped (err x) value e = cc
    unwrapped (ok v) value e = e

pub Makes-if :
    {A : Type 0} (b : Count) (total : A → Count) (test : Bool) (left right : Action Call A)
    → Makes b total left
    → Makes b total right
    → Makes b total (if test then left else right)
Makes-if b total true left right h k = h
Makes-if b total false left right h k = k

pub Makes->>= :
    {A B : Type 0} (b : Count) (middle : A → Count) (total : B → Count) (action : Action Call A)
    (next : A → Action Call B)
    → Makes b middle action
    → ((value : A) → Makes (middle value) total (next value))
    → Makes b total (action >>= next)
unfolding Makes ◌>>=◌
Makes->>= {A} {B} b middle total action next h k trace last e = chain (action trace) (h trace) e
  where
    chain :
        (r : Result A × Trace)
        → ((value : A) → r.0 ≡ ok value → SameSum (made r.1) b (made trace) (middle value))
        → (after r next).0 ≡ ok last
        → SameSum (made (after r next).1) b (made trace) (total last)
    chain (err x, later) m e = cc
    chain (ok v, later) m e =
        let (f, s) = m v refl in let (f2, s2) = k v later last e in (omega arith, omega arith)

pub Makes->> :
    {B : Type 0} (b middle : Count) (total : B → Count) (action : Action Call (Unit {0}))
    (next : Action Call B)
    → Makes b (λ _. middle) action
    → Makes middle total next
    → Makes b total (action >> next)
unfolding Makes ◌>>◌ ◌>>=◌
Makes->> b middle total action next h k trace last e =
    Makes->>= b (λ _. middle) total action (λ _. next) h (λ _. k) trace last e

-- The same step from a larger count.
pub Makes-shift :
    {A : Type 0} (b c : Count) (total : A → Count) (action : Action Call A)
    → Makes b total action
    → Makes (add_counts c b) (λ v. add_counts c (total v)) action
unfolding Makes add_counts
Makes-shift b c total action h trace value e =
    let (f, s) = h trace value e in (omega arith, omega arith)
