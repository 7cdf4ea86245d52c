-- ===== src/Scheduler/Ring.antt =====
-- The ring of the tasks of scheduler.c, as a list from the current task on.
use cuore_os.Base.{
  ℕ, ◌≡◌, refl, sym, ap, subst, ◌∙◌, true, false, Bool-cases, inl, inr, List, [], ◌∷◌, ◌++◌, ◌==◌,
  ==_iff, store, All, All-append, arith,
}
use cuore_os.Scheduler.{Task, Scheduler, set_next, set_prev}

abbrev pub IsLinked : (ℕ → Task) → (a b : ℕ) → Type 0
IsLinked t a b = ((t a).next ≡ b) × ((t b).prev ≡ a)

-- From `a` through the tasks of the list to `b`.
abbrev pub IsPath : (ℕ → Task) → (a : ℕ) → List ℕ → (b : ℕ) → Type 0
IsPath t a [] b = IsLinked t a b
IsPath t a (x ∷ xs) b = IsLinked t a x × IsPath t x xs b

abbrev pub IsOther : (k : ℕ) → ℕ → Type 0
IsOther k x = (x == k) ≡ false

-- No task stands twice.
abbrev pub IsDistinct : List ℕ → Type 0
IsDistinct [] = Unit
IsDistinct (x ∷ xs) = All (IsOther x) xs × IsDistinct xs

-- The current task and those behind it, up to the current one again.
pub record IsRing (s : Scheduler) (c : ℕ) (xs : List ℕ) : Type 0 where
  pub current : s.current ≡ c
  pub not_null : All (IsOther 0) (c ∷ xs)
  pub distinct : IsDistinct (c ∷ xs)
  pub path : IsPath s.tasks c xs c

pub next-set_next : (t : ℕ → Task) (k v : ℕ) → (set_next k v t k).next ≡ v
next-set_next t k v = rw itself refl
  where
    itself : (k == k) ≡ true
    itself = ground arith

pub prev-set_prev : (t : ℕ → Task) (k v : ℕ) → (set_prev k v t k).prev ≡ v
prev-set_prev t k v = rw itself refl
  where
    itself : (k == k) ≡ true
    itself = ground arith

pub next-set_prev : (t : ℕ → Task) (k v a : ℕ) → (set_prev k v t a).next ≡ (t a).next
next-set_prev t k v a = elim (Bool-cases (a == k)) [
  | inl e ↦ rw e (ap (λ x. (t x).next) (sym ((==_iff a k).0 e)))
  | inr e ↦ rw e refl
]

pub prev-set_next : (t : ℕ → Task) (k v a : ℕ) → (set_next k v t a).prev ≡ (t a).prev
prev-set_next t k v a = elim (Bool-cases (a == k)) [
  | inl e ↦ rw e (ap (λ x. (t x).prev) (sym ((==_iff a k).0 e)))
  | inr e ↦ rw e refl
]

pub IsLinked-set_next :
    (t : ℕ → Task) (k v a b : ℕ) → IsOther k a → IsLinked t a b → IsLinked (set_next k v t) a b
IsLinked-set_next t k v a b h l = (
  rw h l.0,
  elim (Bool-cases (b == k)) [
    | inl e ↦ rw e (ap (λ x. (t x).prev) (sym ((==_iff b k).0 e)) ∙ l.1)
    | inr e ↦ rw e l.1
  ],
)

pub IsLinked-set_prev :
    (t : ℕ → Task) (k v a b : ℕ) → IsOther k b → IsLinked t a b → IsLinked (set_prev k v t) a b
IsLinked-set_prev t k v a b h l = (
  elim (Bool-cases (a == k)) [
    | inl e ↦ rw e (ap (λ x. (t x).next) (sym ((==_iff a k).0 e)) ∙ l.0)
    | inr e ↦ rw e l.0
  ],
  rw h l.1,
)

pub IsPath-set_next :
    (t : ℕ → Task) (k v a : ℕ) (xs : List ℕ) (b : ℕ)
    → All (IsOther k) (a ∷ xs)
    → IsPath t a xs b
    → IsPath (set_next k v t) a xs b
IsPath-set_next t k v a [] b h p = IsLinked-set_next t k v a b h.0 p
IsPath-set_next t k v a (x ∷ xs) b h p =
    (IsLinked-set_next t k v a x h.0 p.0, IsPath-set_next t k v x xs b h.1 p.1)

pub IsPath-set_prev :
    (t : ℕ → Task) (k v a : ℕ) (xs : List ℕ) (b : ℕ)
    → All (IsOther k) xs
    → IsOther k b
    → IsPath t a xs b
    → IsPath (set_prev k v t) a xs b
IsPath-set_prev t k v a [] b h g p = IsLinked-set_prev t k v a b g p
IsPath-set_prev t k v a (x ∷ xs) b h g p =
    (IsLinked-set_prev t k v a x h.0 p.0, IsPath-set_prev t k v x xs b h.1 g p.1)

-- A path that goes on.
pub IsPath-append :
    (t : ℕ → Task) (a : ℕ) (xs : List ℕ) (l b : ℕ)
    → IsPath t a xs l
    → IsLinked t l b
    → IsPath t a (xs ++ l ∷ []) b
IsPath-append t a [] l b p k = (p, k)
IsPath-append t a (x ∷ xs) l b p k = (p.0, IsPath-append t x xs l b p.1 k)

pub IsPath-last :
    (t : ℕ → Task) (a : ℕ) (xs : List ℕ) (l b : ℕ)
    → IsPath t a (xs ++ l ∷ []) b
    → IsPath t a xs l × IsLinked t l b
IsPath-last t a [] l b p = p
IsPath-last t a (x ∷ xs) l b p = let more = IsPath-last t x xs l b p.1 in ((p.0, more.0), more.1)

IsLinked-update :
    (t : ℕ → Task) (k : ℕ) (task : Task) (a b : ℕ)
    → task.next ≡ (t k).next
    → task.prev ≡ (t k).prev
    → IsLinked t a b
    → IsLinked (store t k task) a b
IsLinked-update t k task a b n p l = (next_kept a l.0, prev_kept b l.1)
  where
    next_kept : (x : ℕ) {v : ℕ} → (t x).next ≡ v → (store t k task x).next ≡ v
    next_kept x e = elim (Bool-cases (x == k)) [
      | inl f ↦ rw f (n ∙ ap (λ y. (t y).next) (sym ((==_iff x k).0 f)) ∙ e)
      | inr f ↦ rw f e
    ]

    prev_kept : (x : ℕ) {v : ℕ} → (t x).prev ≡ v → (store t k task x).prev ≡ v
    prev_kept x e = elim (Bool-cases (x == k)) [
      | inl f ↦ rw f (p ∙ ap (λ y. (t y).prev) (sym ((==_iff x k).0 f)) ∙ e)
      | inr f ↦ rw f e
    ]

-- Other fields of a task.
pub IsPath-update :
    (t : ℕ → Task) (k : ℕ) (task : Task) (a : ℕ) (xs : List ℕ) (b : ℕ)
    → task.next ≡ (t k).next
    → task.prev ≡ (t k).prev
    → IsPath t a xs b
    → IsPath (store t k task) a xs b
IsPath-update t k task a [] b n p l = IsLinked-update t k task a b n p l
IsPath-update t k task a (x ∷ xs) b n p l =
    (IsLinked-update t k task a x n p l.0, IsPath-update t k task x xs b n p l.1)

pub IsDistinct-append :
    (xs : List ℕ) (k : ℕ) → All (IsOther k) xs → IsDistinct xs → IsDistinct (xs ++ k ∷ [])
IsDistinct-append [] k h d = (tt, tt)
IsDistinct-append (x ∷ xs) k h d = (
  All-append (IsOther x) xs (k ∷ []) d.0 (ground (arith, h.0), tt),
  IsDistinct-append xs k h.1 d.1,
)

-- That no task of a list is `a`, seen from `a`.
pub flipped : (xs : List ℕ) (a : ℕ) → All (IsOther a) xs → All (λ k. IsOther k a) xs
flipped [] a h = tt
flipped (x ∷ xs) a h = (ground (arith, h.0), flipped xs a h.1)

-- The task in front of `b` is one of the path.
pub before_end :
    (P : ℕ → Type 0) (t : ℕ → Task) (a : ℕ) (xs : List ℕ) (b : ℕ)
    → All P (a ∷ xs)
    → IsPath t a xs b
    → P (t b).prev
before_end P t a [] b h p = subst P (sym p.1) h.0
before_end P t a (x ∷ xs) b h p = before_end P t x xs b h.1 p.1
