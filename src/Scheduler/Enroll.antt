-- ===== src/Scheduler/Enroll.antt =====
-- `scheduler_enroll_task` of scheduler.c puts a task at the end of the ring.
use cuore_os.Base.{
  ℕ, ◌≡◌, refl, sym, subst, ◌∙◌, List, [], ◌∷◌, ◌++◌, store, All, All-append, arith,
}
use cuore_os.Scheduler.{Task, Scheduler, set_next, set_prev, enroll_task}
use cuore_os.Scheduler.Ring.{
  IsLinked, IsPath, IsOther, IsDistinct, IsRing, IsLinked-set_next, IsLinked-set_prev,
  next-set_next, prev-set_prev, next-set_prev, prev-set_next, IsPath-append, IsPath-update,
  IsDistinct-append, flipped, before_end,
}

-- The links of a new task `n` between `last` and `c`.
abbrev linked_in : (c last n : ℕ) → (ℕ → Task) → ℕ → Task
linked_in c last n t = set_prev c n (set_next n c (set_prev n last (set_next last n t)))

module _ (t : ℕ → Task) (c last n : ℕ) (e : last ≡ (t c).prev) (new : IsOther c n) where
  ends_at : IsLinked (linked_in c last n t) n c
  ends_at = (next-set_prev t3 c n n ∙ next-set_next t2 n c, prev-set_prev t3 c n)
    where
      t2 : ℕ → Task
      t2 = set_prev n last (set_next last n t)

      t3 : ℕ → Task
      t3 = set_next n c t2

  -- The path to `c` leads to `n`.
  IsPath-reach :
      (a : ℕ) (xs : List ℕ)
      → IsDistinct (a ∷ xs)
      → All (IsOther n) (a ∷ xs)
      → All (IsOther c) xs
      → IsPath t a xs c
      → IsPath (linked_in c last n t) a xs n
  IsPath-reach a [] d h k p = (
    next-set_prev t3 c n a ∙ rw h.0 first_lem,
    rw new (prev-set_next t2 n c n ∙ prev-set_prev t1 n last ∙ is_last),
  )
    where
      t1 : ℕ → Task
      t1 = set_next last n t

      t2 : ℕ → Task
      t2 = set_prev n last t1

      t3 : ℕ → Task
      t3 = set_next n c t2

      is_last : last ≡ a
      is_last = e ∙ p.1

      first_lem : (set_next last n t a).next ≡ n
      first_lem = subst (λ k. (set_next k n t a).next ≡ n) (sym is_last) (next-set_next t a n)
  IsPath-reach a (y ∷ ys) d h k p = (
    IsLinked-set_prev t3 c n a y k.0 (
        IsLinked-set_next t2 n c a y h.0
          (IsLinked-set_prev t1 n last a y h.1.0 (IsLinked-set_next t last n a y other p.0))),
    IsPath-reach y ys d.1 h.1 k.1 p.1,
  )
    where
      t1 : ℕ → Task
      t1 = set_next last n t

      t2 : ℕ → Task
      t2 = set_prev n last t1

      t3 : ℕ → Task
      t3 = set_next n c t2

      other : IsOther last a
      other =
          subst (λ k. IsOther k a) (sym e)
            (before_end (λ k. IsOther k a) t y ys c (flipped (y ∷ ys) a d.0) p.1)

-- When the tasks from the current one on are a ring, and a task other than NULL is none of them,
-- then after `scheduler_enroll_task` they are a ring with the new task at its end.
pub enroll_task-IsRing :
    (s : Scheduler) (xs : List ℕ) (n : ℕ)
    → IsRing s s.current xs
    → All (IsOther n) (0 ∷ s.current ∷ xs)
    → IsRing (enroll_task n s) s.current (xs ++ n ∷ [])
unfolding enroll_task
enroll_task-IsRing s xs n r h = rw r.not_null.0 (record {
  current = refl;
  not_null = All-append (IsOther 0) (s.current ∷ xs) (n ∷ []) r.not_null (not_null, tt);
  distinct = IsDistinct-append (s.current ∷ xs) n h.1 r.distinct;
  path =
      IsPath-append (linked_in s.current last n t) s.current xs n s.current
        (IsPath-reach t s.current last n refl new s.current xs r.distinct h.1 r.distinct.0 path)
        (ends_at t s.current last n refl new);
})
  where
    t : ℕ → Task
    t = store s.tasks n (record (s.tasks n) { upid = s.current_pid })

    last : ℕ
    last = (t s.current).prev

    new : IsOther s.current n
    new = ground (arith, h.1.0)

    not_null : IsOther 0 n
    not_null = ground (arith, h.0)

    path : IsPath t s.current xs s.current
    path =
        IsPath-update s.tasks n (record (s.tasks n) { upid = s.current_pid }) s.current xs s.current
          refl refl r.path
