-- ===== src/Random/Tests.antt =====
-- Tests of the random numbers.
use cuore_os.Base.{◌≡◌, refl, some}
use cuore_os.Random.{
  step_lcg_32, swrand32, swrand16, threshold, draw_until, drawn, result_in, randint,
}

-- From the seed 0 the first state is the increment.
first_state : (swrand16 0).1 ≡ 1442695040888963407
unfolding swrand16 step_lcg_32
first_state = refl

one_value : randint 1 0 7 7 ≡ some (7, 1442695040888963407)
unfolding randint swrand32 step_lcg_32 threshold draw_until drawn result_in
one_value = refl
