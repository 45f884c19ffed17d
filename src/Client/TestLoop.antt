-- ===== src/Client/TestLoop.antt =====
-- The loop of `display_thread` in test mode: every tenth round a sample picture is sent. The name of
-- the file goes through `trans_info.file_name`, an array of 100 bytes.
use painting_cps.Prelude.{
  ℕ, ◌+◌, ◌≡◌, Bool, true, false, List, [], ◌∷◌, ◌++◌, arith, ltb, leb, if◌then◌else◌, replicate,
  length,
}
use painting_cps.Exec.{Result, ok, fault, bind, out_of_bounds}
use painting_cps.CText.{Bytes, codes, print_nat, overlay}

-- `bzero(&trans_info.file_name, BUFFER_SIZE)` and `strcpy` of the name into the array.
unfoldable pub fill_name : ℕ → Bytes → Bytes → Result Bytes
unfolding overlay
fill_name cleared array name =
    bind (overlay array (replicate cleared 0)) (λ zeroed. overlay zeroed (name ++ 0 ∷ []))

-- `BUFFER_SIZE` and `sizeof(trans_info.file_name)`.
abbrev pub cleared_size : ℕ
cleared_size = 1024

abbrev pub name_size : ℕ
name_size = 100

-- `sprintf(file_name, "sample/%d.jpg", index)`.
abbrev pub sample_name : ℕ → Bytes
sample_name index = codes "sample/" ++ (print_nat index ++ codes ".jpg")

pub record Testing : Type 0 where
  pub index : ℕ
  pub count : ℕ
  pub sent : List Bytes
  pub draw_result : ℕ

abbrev pub start_testing : ℕ → Testing
start_testing draw_result = record { index = 1; count = 9; sent = []; draw_result = draw_result }

abbrev next_index : ℕ → ℕ
next_index index = if ltb 100 (index + 1) then 1 else index + 1

abbrev clear_drawing : Testing → Testing
clear_drawing s = record s { draw_result = 0 }

-- A round with the uninitialised array of `trans_info`, and whether the thread could be created. The
-- flag tells whether the loop goes on.
unfoldable pub test_round : Bytes → Bool → Testing → Result (Testing × Bool)
unfolding fill_name
test_round array created s =
    if leb 10 (s.count + 1)
    then bind (fill_name cleared_size array (sample_name s.index)) (λ file_name.
      let t : Testing = record s { index = next_index s.index; count = 0 } in
      if created
      then ok (clear_drawing (record t { sent = s.sent ++ sample_name s.index ∷ [] }), true)
      else ok (t, false))
    else ok (clear_drawing (record s { count = s.count + 1 }), true)

-- The loop, for the arrays and the threads of its rounds until `global_stop` is set.
unfoldable pub test_rounds : List (Bytes × Bool) → Testing → Result Testing
test_rounds [] s = ok s
test_rounds ((array, created) ∷ rounds) s =
    bind (test_round array created s)
      (λ (t, goes_on). let rest = test_rounds rounds t in if goes_on then rest else ok t)

-- In test mode the first round of the loop writes behind an array, whatever the array holds and
-- whether or not the thread could be created.
pub test_rounds-overflow :
    (draw_result : ℕ) (array : Bytes) (created : Bool) (rounds : List (Bytes × Bool))
    → length array ≡ name_size
    → test_rounds ((array, created) ∷ rounds) (start_testing draw_result) ≡ fault out_of_bounds
unfolding test_rounds test_round overlay
test_rounds-overflow draw_result array created rounds sized = ground (arith, sized)
