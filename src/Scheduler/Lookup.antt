-- ===== src/Scheduler/Lookup.antt =====
-- `get_task_by_upid` of scheduler.c goes once around the ring.
use cuore_os.Base.{
  ℕ, zero, suc, ◌<◌, ◌≡◌, refl, ap, ◌∙◌, true, List, [], ◌∷◌, ◌==◌, if◌then◌else◌, length, All,
  arith,
}
use cuore_os.Scheduler.{Task, Scheduler, find_upid, get_task_by_upid}
use cuore_os.Scheduler.Ring.{IsPath, IsOther, IsRing}

-- The first task of the list with a number, 0 for none.
abbrev pub first_with : (upid : ℕ) → (ℕ → Task) → List ℕ → ℕ
first_with upid t [] = 0
first_with upid t (a ∷ xs) = if (t a).upid == upid then a else first_with upid t xs

find_upid-first_with :
    (fuel upid c a : ℕ) (xs : List ℕ) (t : ℕ → Task)
    → length xs < fuel
    → All (IsOther c) xs
    → IsPath t a xs c
    → find_upid fuel upid c a t ≡ first_with upid t (a ∷ xs)
unfolding find_upid
find_upid-first_with zero upid c a xs t f h p = ground (arith, f)
find_upid-first_with (suc fuel) upid c a [] t f h p =
    ap (λ r. if (t a).upid == upid then a else r) inner
  where
    itself : (c == c) ≡ true
    itself = ground arith

    inner : (if (t a).next == c then 0 else find_upid fuel upid c (t a).next t) ≡ 0
    inner = rw (p.0, itself) refl
find_upid-first_with (suc fuel) upid c a (y ∷ ys) t f h p =
    ap (λ r. if (t a).upid == upid then a else r)
      (inner ∙ find_upid-first_with fuel upid c y ys t (omega (arith, f)) h.1 p.1)
  where
    inner :
        (if (t a).next == c then 0 else find_upid fuel upid c (t a).next t)
        ≡ find_upid fuel upid c y t
    inner = rw (p.0.0, h.0) refl

-- When the tasks from the current one on are a ring, `get_task_by_upid`, with fuel for each of
-- them, returns the first one with the number, from the current task on, and NULL when there is
-- none.
pub get_task_by_upid-first_with :
    (fuel upid : ℕ) (s : Scheduler) (xs : List ℕ)
    → IsRing s s.current xs
    → length xs < fuel
    → get_task_by_upid fuel upid s ≡ first_with upid s.tasks (s.current ∷ xs)
unfolding get_task_by_upid
get_task_by_upid-first_with fuel upid s xs r f =
    rw r.not_null.0
      (find_upid-first_with fuel upid s.current s.current xs s.tasks f r.distinct.0 r.path)
