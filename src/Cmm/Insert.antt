-- ===== src/Cmm/Insert.antt =====
-- `cmm_insert_region` of mem/cmm.c: the type of an address, and room for the regions.
use cuore_os.Base.{
  ℕ, ◌+◌, ◌-◌, ◌^◌, ◌≤◌, ◌<◌, ◌≡◌, refl, ◌∙◌, ap, ◌⊎◌, inl, inr, true, false, not, ◌&&◌, Option,
  none, some, List, [], ◌∷◌, ◌++◌, u64, smin, ltb, leb, if◌then◌else◌, arith, All, Bool-cases,
  length, length-append, if_cases, ok, leb→le,
}
use cuore_os.Cmm.{
  CmmType, CmmRegion, Cmm, insert_region, Inserted, ensure_capacity, cmm_end, pieces, push_front,
  insert_from,
}

-- Regions in the order of memory, which do not overlap and do not wrap.
abbrev pub IsOrdered : List CmmRegion → Type 0
IsOrdered [] = Unit
IsOrdered (r ∷ rs) =
    (r.base + r.extent < 2 ^ 64) × All (λ q. r.base + r.extent ≤ q.base) rs × IsOrdered rs

-- The type of the first region that an address lies in.
abbrev pub type_at : ℕ → List CmmRegion → Option CmmType
type_at x [] = none
type_at x (r ∷ rs) = if leb r.base x && ltb x (r.base + r.extent) then some r.type else type_at x rs

type_at-later :
    (x e : ℕ) (t : CmmType) (rs : List CmmRegion)
    → All (λ q. e ≤ q.base) rs
    → type_at x rs ≡ some t
    → e ≤ x
type_at-later x e t [] p h = ground (arith, h)
type_at-later x e t (r ∷ rs) p h = ground (arith, h, p.0, type_at-later x e t rs p.1)

type_at-cases :
    (x : ℕ) (t : CmmType) (r : CmmRegion) (rs : List CmmRegion)
    → All (λ q. r.base + r.extent ≤ q.base) rs
    → type_at x (r ∷ rs) ≡ some t
    → ((r.base ≤ x) × (x < r.base + r.extent) × (r.type ≡ t))
      ⊎ ((r.base + r.extent ≤ x) × (type_at x rs ≡ some t))
type_at-cases x t r rs p h = elim (Bool-cases (leb r.base x && ltb x (r.base + r.extent))) [
  | inl e ↦ inl (ground (arith, e), ground (arith, e), ground (arith, e, h))
  | inr e ↦ inr (type_at-later x (r.base + r.extent) t rs p (later e), later e)
]
  where
    later : (leb r.base x && ltb x (r.base + r.extent)) ≡ false → type_at x rs ≡ some t
    later e = ground (arith, e, h)

module _ (target_end : ℕ) (new_type : CmmType) (x : ℕ) where
  -- The type that an address has after the insertion at `target_base`.
  abbrev pub retyped : ℕ → CmmType → CmmType
  retyped target_base t = if leb target_base x && ltb x target_end then new_type else t

  -- An address in the region that is cut.
  pieces-inside :
      (target_base id : ℕ) (r : CmmRegion) (rs : List CmmRegion)
      → r.base + r.extent < 2 ^ 64
      → target_base < r.base + r.extent
      → r.base < target_end
      → r.base ≤ x
      → x < r.base + r.extent
      → type_at x ((pieces target_base target_end new_type id r).1 ++ rs)
        ≡ some (retyped target_base r.type)
  unfolding pieces cmm_end
  pieces-inside target_base id r rs w a b c d = ground arith

  -- An address behind it.
  pieces-behind :
      (target_base id : ℕ) (r : CmmRegion) (rs : List CmmRegion)
      → r.base + r.extent < 2 ^ 64
      → target_base < r.base + r.extent
      → r.base < target_end
      → r.base + r.extent ≤ x
      → type_at x ((pieces target_base target_end new_type id r).1 ++ rs) ≡ type_at x rs
  unfolding pieces cmm_end
  pieces-behind target_base id r rs w a b c = ground arith

  kept-type_at :
      (target_base : ℕ) (t : CmmType) (r : CmmRegion) (rs : List CmmRegion)
      → target_end ≤ target_base
      → type_at x (r ∷ rs) ≡ some t
      → type_at x (r ∷ rs) ≡ some (retyped target_base t)
  kept-type_at target_base t r rs e h = ground (arith, h, e)

  pub insert_from-type_at :
      (rs : List CmmRegion) (t : CmmType) (target_base count capacity id : ℕ)
      → IsOrdered rs
      → type_at x rs ≡ some t
      → type_at x (insert_from target_base target_end new_type count capacity id rs).regions
        ≡ some (retyped target_base t)
  unfolding insert_from push_front cmm_end
  insert_from-type_at [] t target_base count capacity id o h = ground (arith, h)
  insert_from-type_at (r ∷ rs) t target_base count capacity id o h =
      if_cases after (leb target_end target_base) _ _
        (λ e. kept-type_at target_base t r rs (leb→le _ _ e) h)
        (λ e.
          if_cases after (not (ltb target_base (cmm_end r) && ltb r.base target_end)) _ _
            (λ e2. elim (type_at-cases x t r rs o.1 h) [
              | inl here ↦ ground (arith, o.0, e2, here)
              | inr later ↦ ground (
                arith,
                e2,
                later,
                insert_from-type_at rs t target_base count capacity id o.2 later.1,
              )
            ])
            (λ e2.
              if_cases after (leb target_base r.base && leb (cmm_end r) target_end) _ _
                (λ e3. elim (type_at-cases x t r rs o.1 h) [
                  | inl here ↦ ground (arith, o.0, e2, e3, here)
                  | inr later ↦ ground (
                    arith,
                    later,
                    insert_from-type_at rs t target_base count capacity id o.2 later.1,
                  )
                ])
                (λ e3. elim (type_at-cases x t r rs o.1 h) [
                  | inl here ↦
                      pieces-inside target_base id r _ o.0 (meets e2).0 (meets e2).1 here.0 here.1
                      ∙ ap (λ u. some (retyped target_base u)) here.2
                  | inr later ↦
                      pieces-behind target_base id r _ o.0 (meets e2).0 (meets e2).1 later.0
                      ∙ (insert_from-type_at rs t (smin target_end (cmm_end r))
                            (count + (length (pieces target_base target_end new_type id r).1 - 1))
                            (ensure_capacity (count + 2) capacity)
                            (pieces target_base target_end new_type id r).0 o.2 later.1
                          ∙ cut_retyped e2 later.0)
                ])))
    where
      after : Inserted → Type 0
      after i = type_at x i.regions ≡ some (retyped target_base t)

      meets :
          not (ltb target_base (cmm_end r) && ltb r.base target_end) ≡ false
          → (target_base < r.base + r.extent) × (r.base < target_end)
      meets e = (ground (arith, o.0, e), ground (arith, e))

      cut_retyped :
          not (ltb target_base (cmm_end r) && ltb r.base target_end) ≡ false
          → r.base + r.extent ≤ x
          → some (retyped (smin target_end (cmm_end r)) t) ≡ some (retyped target_base t)
      cut_retyped e behind = ground (arith, o.0, e, behind)

module _ (target_end : ℕ) (new_type : CmmType) where
  pieces-length :
      (target_base id : ℕ) (r : CmmRegion)
      → (1 ≤ length (pieces target_base target_end new_type id r).1)
        × (length (pieces target_base target_end new_type id r).1 ≤ 3)
  unfolding pieces
  pieces-length target_base id r = ground arith

  -- `count` regions of which `before` are in front of those that are listed, and room for them.
  abbrev pub HasRoom : ℕ → Inserted → Type 0
  HasRoom before i = (i.count ≡ before + length i.regions) × (i.count ≤ i.capacity)

  push_front-HasRoom :
      (before : ℕ) (rs : List CmmRegion) (i : Inserted)
      → HasRoom (before + length rs) i
      → HasRoom before (push_front rs i)
  unfolding push_front
  push_front-HasRoom before rs i h = (omega (arith, h, length-append rs i.regions), h.1)

  -- The count that the loop keeps is the number of regions, and there is room for them.
  pub insert_from-HasRoom :
      (rs : List CmmRegion) (before target_base count capacity id : ℕ)
      → count ≡ before + length rs
      → count ≤ capacity
      → 2 ≤ capacity
      → HasRoom before (insert_from target_base target_end new_type count capacity id rs)
  unfolding insert_from ensure_capacity
  insert_from-HasRoom [] before target_base count capacity id e le two = (e, le)
  insert_from-HasRoom (r ∷ rs) before target_base count capacity id e le two =
      if_cases (HasRoom before) (leb target_end target_base) _ _ (λ _. (e, le))
        (λ _.
          if_cases (HasRoom before) (not (ltb target_base (cmm_end r) && ltb r.base target_end)) _ _
            (λ _. push_front-HasRoom before (r ∷ []) rest (
              insert_from-HasRoom rs (before + 1) target_base count capacity id (omega (arith, e))
                le two))
            (λ _.
              if_cases (HasRoom before) (leb target_base r.base && leb (cmm_end r) target_end) _ _
                (λ _. push_front-HasRoom before (record r { type = new_type } ∷ []) rest (
                  insert_from-HasRoom rs (before + 1) target_base count capacity id
                    (omega (arith, e)) le two))
                (λ _.
                  push_front-HasRoom before (pieces target_base target_end new_type id r).1 behind (
                    insert_from-HasRoom rs
                      (before + length (pieces target_base target_end new_type id r).1)
                      (smin target_end (cmm_end r))
                      (count + (length (pieces target_base target_end new_type id r).1 - 1))
                      (ensure_capacity (count + 2) capacity)
                      (pieces target_base target_end new_type id r).0
                      (omega (arith, e, pieces-length target_base id r))
                      (ground (arith, le, two, pieces-length target_base id r))
                      (ground (arith, le, two))))))
    where
      rest : Inserted
      rest = insert_from target_base target_end new_type count capacity id rs

      behind : Inserted
      behind =
          insert_from (smin target_end (cmm_end r)) target_end new_type
            (count + (length (pieces target_base target_end new_type id r).1 - 1))
            (ensure_capacity (count + 2) capacity) (pieces target_base target_end new_type id r).0
            rs

-- On a map that is backed by the heap, whose regions are in order, disjoint and within its
-- capacity of at least 2, and for a target that does not wrap, `cmm_insert_region` returns,
-- leaves the regions within the capacity, and an address that has a type (that of the first
-- region it lies in) has the new type afterwards if it lies in the target and its old type if
-- not.
pub insert_region-type_at :
    (base extent : ℕ) (new_type : CmmType) (s : Cmm) (x : ℕ) (t : CmmType)
    → s.is_heap_backed ≡ true
    → base + extent < 2 ^ 64
    → IsOrdered s.internal_map
    → length s.internal_map ≤ s.internal_capacity
    → 2 ≤ s.internal_capacity
    → type_at x s.internal_map ≡ some t
    → (s' : Cmm) × (insert_region base extent new_type s ≡ ok s')
      × (length s'.internal_map ≤ s'.internal_capacity)
      × (type_at x s'.internal_map ≡ some (retyped (base + extent) new_type x base t))
unfolding insert_region
insert_region-type_at base extent new_type s x t backed w o le two h = (
  done,
  rw backed (rw exact refl),
  omega (arith, room),
  insert_from-type_at (base + extent) new_type x s.internal_map t base (length s.internal_map)
      s.internal_capacity s.next_id o h,
)
  where
    exact : u64 (base + extent) ≡ base + extent
    exact = omega (arith, w)

    i : Inserted
    i =
        insert_from base (base + extent) new_type (length s.internal_map) s.internal_capacity
          s.next_id s.internal_map

    done : Cmm
    done = record s { internal_map = i.regions; internal_capacity = i.capacity; next_id = i.id }

    room : HasRoom (base + extent) new_type 0 i
    room =
        insert_from-HasRoom (base + extent) new_type s.internal_map 0 base (length s.internal_map)
          s.internal_capacity s.next_id (omega arith) le two
