-- ===== src/Scheduler/Tick.antt =====
-- The timer of scheduler.c turns the ring by one task, or takes the current one out.
use cuore_os.Base.{
  ℕ, ◌≡◌, refl, sym, subst, ◌∙◌, Bool, true, false, not, ◌&&◌, Bool-cases, inl, inr, List, [], ◌∷◌,
  ◌++◌, ◌==◌, if◌then◌else◌, store, All, All-append, arith,
}
use cuore_os.Scheduler.{
  Task, Scheduler, set_next, set_prev, release_task, is_over, switch_to, timer_handler,
}
use cuore_os.Scheduler.Ring.{
  IsPath, IsOther, IsDistinct, IsRing, IsLinked-set_next, IsLinked-set_prev, next-set_next,
  prev-set_prev, next-set_prev, IsPath-append, IsPath-update, IsDistinct-append, flipped,
  before_end,
}

-- The order of the tasks after a turn.
abbrev pub turned : (over : Bool) → (c : ℕ) → List ℕ → List ℕ
turned over c xs = if over then xs else xs ++ c ∷ []

-- The last task of a path to `c` is linked to `x` in place of `c`.
IsPath-unlink :
    (t : ℕ → Task) (c x last : ℕ)
    → last ≡ (t c).prev
    → (a : ℕ) (xs : List ℕ) → IsDistinct (a ∷ xs)
    → All (IsOther x) xs
    → IsPath t a xs c
    → IsPath (set_prev x last (set_next last x t)) a xs x
IsPath-unlink t c x last e a [] d h p = (
  next-set_prev (set_next last x t) x last a
      ∙ subst (λ k. (set_next k x t a).next ≡ x) (sym is_last) (next-set_next t a x),
  prev-set_prev (set_next last x t) x last ∙ is_last,
)
  where
    is_last : last ≡ a
    is_last = e ∙ p.1
IsPath-unlink t c x last e a (y ∷ ys) d h p = (
  IsLinked-set_prev (set_next last x t) x last a y h.0 (IsLinked-set_next t last x a y other p.0),
  IsPath-unlink t c x last e y ys d.1 h.1 p.1,
)
  where
    other : IsOther last a
    other =
        subst (λ k. IsOther k a) (sym e)
          (before_end (λ k. IsOther k a) t y ys c (flipped (y ∷ ys) a d.0) p.1)

all_true : (b : Bool) → (b && not false && not false && not false) ≡ b
all_true true = refl
all_true false = refl

-- A ring is left by a task whose number is 0.
is_over_lem :
    (t : ℕ → Task) (c x : ℕ) (xs : List ℕ)
    → All (IsOther 0) (c ∷ x ∷ xs)
    → IsDistinct (c ∷ x ∷ xs)
    → IsPath t c (x ∷ xs) c
    → is_over c (t c) ≡ ((t c).upid == 0)
unfolding is_over
is_over_lem t c x xs z d p =
    rw (p.0.0, apart, z.1.0, before_end (IsOther 0) t x xs c z.1 p.1) (all_true ((t c).upid == 0))
  where
    apart : (c == x) ≡ false
    apart = ground (arith, d.0.0)

-- The state with the frame of the current task.
abbrev pub saved_in : (tf : ℕ) → Scheduler → Scheduler
saved_in tf s = record s {
  tasks = store s.tasks s.current (record (s.tasks s.current) { rsp = tf });
}

saved-IsPath :
    (tf : ℕ) (s : Scheduler) (a : ℕ) (xs : List ℕ) (b : ℕ)
    → IsPath s.tasks a xs b
    → IsPath (saved_in tf s).tasks a xs b
saved-IsPath tf s a xs b p =
    IsPath-update s.tasks s.current (record (s.tasks s.current) { rsp = tf }) a xs b refl refl p

-- The task that leaves: the others are a ring.
release-IsPath :
    (hhdm_offset tf : ℕ) (s : Scheduler) (x : ℕ) (xs : List ℕ)
    → IsDistinct (s.current ∷ x ∷ xs)
    → IsPath s.tasks s.current (x ∷ xs) s.current
    → IsPath (release_task hhdm_offset s.current (saved_in tf s)).tasks x xs x
unfolding release_task
release-IsPath hhdm_offset tf s x xs d p =
    subst (λ n. IsPath (set_prev n last (set_next last n t)) x xs x)
      (sym (saved-IsPath tf s s.current [] x p.0).0)
      (IsPath-unlink t s.current x last refl x xs d.1 d.1.0 (saved-IsPath tf s x xs s.current p.1))
  where
    t : ℕ → Task
    t = (saved_in tf s).tasks

    last : ℕ
    last = (t s.current).prev

-- When the tasks from the current one on are a ring of at least two different tasks, then after
-- `scheduler_timer_handler` the next task is the current one, and the tasks from it on are a ring
-- with the former one at its end, or without it when its number was 0.
pub timer_handler-IsRing :
    (hhdm_offset tf : ℕ) (s : Scheduler) (x : ℕ) (xs : List ℕ)
    → IsRing s s.current (x ∷ xs)
    → IsRing
        (timer_handler hhdm_offset tf s).1
        x
        (turned ((s.tasks s.current).upid == 0) s.current xs)
unfolding timer_handler switch_to
timer_handler-IsRing hhdm_offset tf s x xs r =
    rw (is_over_lem s.tasks s.current x xs r.not_null r.distinct r.path)
      (elim (Bool-cases ((s.tasks s.current).upid == 0)) [
        | inl e ↦ rw e (record {
          current = r.path.0.0;
          not_null = r.not_null.1;
          distinct = r.distinct.1;
          path = release-IsPath hhdm_offset tf s x xs r.distinct r.path;
        })
        | inr e ↦ rw e (record {
          current = r.path.0.0;
          not_null =
              All-append (IsOther 0) (x ∷ xs) (s.current ∷ []) r.not_null.1 (r.not_null.0, tt);
          distinct = IsDistinct-append (x ∷ xs) s.current r.distinct.0 r.distinct.1;
          path =
              IsPath-append (saved_in tf s).tasks x xs s.current x
                (saved-IsPath tf s x xs s.current r.path.1)
                (saved-IsPath tf s s.current [] x r.path.0);
        })
      ])
