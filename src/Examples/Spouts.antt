-- ===== src/Examples/Spouts.antt =====
-- The way to the spout.
use painting_cps.Prelude.{ℕ, ◌≡◌, refl, pos, true, [], ◌∷◌, ◌++◌, some, arith, replicate, length}
use painting_cps.Exec.{ok, done, bind}
use painting_cps.CText.{Bytes, codes, c_string, to_int}
use painting_cps.Calls.{Net, net}
use painting_cps.Storm.Spout.{hand_over}
use painting_cps.Storm.Spout.Delivered.{
  spout_replies, opening, handing, size_block, hand_over-picture,
}
use painting_cps.Storm.Spout.Asked.{finder_replies}
use painting_cps.Storm.Spout.Alike.{file_replies, written, starter-hand_over}
use painting_cps.Storm.Spout.Starter.{starter}

abbrev picture : Bytes
picture = 1 ∷ 2 ∷ 3 ∷ []

abbrev address : Bytes
address = codes "10.0.0.7"

hand_over-picture_example :
    (hand_over address (picture ++ 9 ∷ []) (pos 3) (net (spout_replies 5 1 2 3 100) [])
      ≡ done true (net [] (opening 5 2 address ++ handing 5 3 (picture ++ 9 ∷ []))))
    × (length (size_block 3) ≡ 100)
    × (bind (c_string (size_block 3)) (λ t. to_int (some t)) ≡ ok (pos 3))
hand_over-picture_example =
    hand_over-picture address (picture ++ 9 ∷ []) 5 1 2 3 3 100 (omega arith) (omega arith)
      (omega arith)

abbrev zeros : ℕ → Bytes
zeros n = replicate n 0

starter-hand_over_example :
    (t u : Net) × (starter zeros
        (net (finder_replies 4 7 address ++ file_replies 5 1 2 6 picture) [])
      ≡ done (pos 0) t)
    × (hand_over address picture (pos 3) (net (spout_replies 5 1 2 3 3) []) ≡ done true u)
    × (written t.trace ≡ written u.trace)
    × (written u.trace ≡ size_block 3 ∷ picture ∷ [])
starter-hand_over_example =
    starter-hand_over zeros picture refl address 4 7 5 1 2 6 3 refl (ground arith) (ground arith)
      (omega arith) (omega arith) (omega arith) (omega arith)
