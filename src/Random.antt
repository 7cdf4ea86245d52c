-- ===== src/Random.antt =====
-- rand/swrand.c: random numbers from a seed. A function of the seed returns the new seed too.
mod Tests
use cuore_os.Base.{
  ℕ, zero, suc, ◌+◌, ◌-◌, ◌*◌, ◌/◌, ◌%◌, ◌^◌, bit_or, bit_xor, Bool, Option, none, some, ltb, leb,
  if◌then◌else◌, u8, u32, u64,
}

abbrev pub lcg_mult : ℕ
lcg_mult = 6364136223846793005

abbrev pub lcg_inc : ℕ
lcg_inc = 1442695040888963407

unfoldable pub step_lcg_32 : (seed : ℕ) → ℕ × ℕ
step_lcg_32 seed =
    let next = u64 (seed * lcg_mult + lcg_inc) in
    let xorshifted = u32 (bit_xor (next / 2 ^ 18) next / 2 ^ 27) in
    let rot = next / 2 ^ 59 in
    (bit_or (xorshifted / 2 ^ rot) (u32 (xorshifted * 2 ^ ((32 - rot) % 32))), next)

-- The first call fills the high half: the operands of `|` may also be evaluated the other way around.
unfoldable pub swrand64 : (seed : ℕ) → ℕ × ℕ
unfolding step_lcg_32
swrand64 seed =
    let high = step_lcg_32 seed in
    let low = step_lcg_32 high.1 in (bit_or (high.0 * 2 ^ 32) low.0, low.1)

unfoldable pub swrand32 : (seed : ℕ) → ℕ × ℕ
unfolding step_lcg_32
swrand32 seed = step_lcg_32 seed

unfoldable pub swrand16 : (seed : ℕ) → ℕ × ℕ
unfolding step_lcg_32
swrand16 seed = let r = step_lcg_32 seed in (r.0 / 2 ^ 16 % 2 ^ 16, r.1)

unfoldable pub swrand8 : (seed : ℕ) → ℕ × ℕ
unfolding step_lcg_32
swrand8 seed = let r = step_lcg_32 seed in (u8 (r.0 / 2 ^ 24), r.1)

-- The numbers below `t` that the loop of `randint` refuses are those of the low half.
unfoldable pub threshold : (range : ℕ) → ℕ
threshold range =
    let t = u32 (2 ^ 64 - range) in
    if ltb t range then t else if ltb (t - range) range then t - range else (t - range) % range

-- `while (l < t)`, on fuel; none when it is used up.
unfoldable pub draw_until : (fuel : ℕ) → (range t m seed : ℕ) → Option (ℕ × ℕ)
unfolding swrand32
draw_until zero range t m seed = none
draw_until (suc fuel) range t m seed =
    let x = swrand32 seed in
    let rest = draw_until fuel range t (x.0 * range) x.1 in
    if ltb (u32 m) t then rest else some (m, seed)

unfoldable pub drawn : (fuel : ℕ) → (range m seed : ℕ) → Option (ℕ × ℕ)
unfolding threshold draw_until
drawn fuel range m seed =
    let refused = draw_until fuel range (threshold range) m seed in
    if ltb (u32 m) range then refused else some (m, seed)

unfoldable pub result_in : (from : ℕ) → Option (ℕ × ℕ) → Option (ℕ × ℕ)
result_in from none = none
result_in from (some (m, seed)) = some (u32 (from + m / 2 ^ 32), seed)

unfoldable pub randint : (fuel : ℕ) → (seed from to : ℕ) → Option (ℕ × ℕ)
unfolding swrand32 drawn result_in
randint fuel seed from to =
    let low = if ltb to from then to else from in
    let high = if ltb to from then from else to in
    let range = high - low + 1 in
    let x = swrand32 seed in result_in low (drawn fuel range (u64 (x.0 * range)) x.1)
