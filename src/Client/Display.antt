-- ===== src/Client/Display.antt =====
-- The camera loop of `display_thread`: every 35th frame is stored in a file and sent, and the last
-- answer is drawn on the frames.
use native.Mathlib.Decide.{dec_lt}
use painting_cps.Prelude.{
  ℕ, zero, suc, ◌+◌, ◌*◌, ◌/◌, ◌%◌, ◌^◌, ◌≤◌, ◌<◌, ◌≡◌, ◌∙◌, ap, Bool, true, false, ◌&&◌, List, [],
  ◌∷◌, ◌++◌, arith, ltb, leb, ◌==◌, if◌then◌else◌, int_max, length, length-append, append_assoc,
  append-nil,
}
use painting_cps.Exec.{Result, ok, fault, bind, int_overflow, out_of_bounds}
use painting_cps.CText.{Bytes, codes, print_nat}
use painting_cps.MsgDistributor.Frames.Laws.{length-print_nat-le}
use painting_cps.Results.{Shown}

-- What is drawn: a text at a height, or a side of the outline between two corners.
pub data Stroke (Coordinate : Type 0) : Type 0 where
  put_text : Bytes → ℕ → Stroke Coordinate
  line : Coordinate → Coordinate → Coordinate → Coordinate → Stroke Coordinate

-- A round of the loop: whether the frame that was read has data, whether the thread for it could be
-- created, whether ESC was pressed, `global_stop` at its head, and what the result thread shows.
pub record Frame (Coordinate : Type 0) : Type 0 where
  pub has_data : Bool
  pub created : Bool
  pub escape : Bool
  pub stop : Bool
  pub shown : Shown Coordinate

-- `sent` lists the files for which a thread `transmit_child` was started, `window` the drawings on
-- the frames shown.
pub record Display (Coordinate : Type 0) : Type 0 where
  pub index : ℕ
  pub count : ℕ
  pub sent : List Bytes
  pub window : List (List (Stroke Coordinate))

-- `++` on an `int` that is not negative.
abbrev pub plus_one : ℕ → Result ℕ
plus_one n = if ltb n int_max then ok (n + 1) else fault int_overflow

-- `sprintf(file_name, "pics/%s-%d.jpg", userID, index)` into 100 bytes.
abbrev pub picture_name : Bytes → ℕ → Bytes
picture_name user index =
    codes "pics/" ++ (user ++ (codes "-" ++ (print_nat index ++ codes ".jpg")))

unfoldable pub store_name : Bytes → ℕ → Result Bytes
store_name user index =
    let text = picture_name user index in
    if ltb (length text) 100 then ok text else fault out_of_bounds

abbrev outline_sides : {C : Type 0} → List C → List (Stroke C)
outline_sides (a ∷ b ∷ c ∷ d ∷ e ∷ f ∷ g ∷ h ∷ rest) =
    line a b c d ∷ line c d e f ∷ line e f g h ∷ line g h a b ∷ []
outline_sides few = []

-- `if (drawResult)`: three texts and four outline_sides.
unfoldable pub drawing : {C : Type 0} → Shown C → List (Stroke C)
drawing shown =
    if shown.draw_result == 0
    then []
    else (put_text shown.result_title 30
        ∷ put_text shown.result_artist 60
        ∷ put_text shown.result_date 90
        ∷ outline_sides shown.coord)

module _ {C : Type 0} where
  abbrev pub start_display : Display C
  start_display = record { index = 1; count = 0; sent = []; window = [] }

  -- Behind the transfer: the drawing, the window and the key. The flag tells whether the loop goes on.
  abbrev show_frame : Frame C → Display C → Display C × Bool
  show_frame f s = (
    if f.has_data then record s { window = s.window ++ drawing f.shown ∷ [] } else s,
    if f.escape then false else true,
  )

  -- A picture is due: its name, its number, and its thread, without which the loop ends.
  abbrev send_picture : Bytes → Frame C → Display C → Result (Display C × Bool)
  send_picture user f s = bind (store_name user s.index) (λ file_name.
      bind (plus_one s.index) (λ index.
        let t : Display C = record s { index = index; count = 0 } in
        if f.created
        then ok (show_frame f (record t { sent = s.sent ++ file_name ∷ [] }))
        else ok (t, false)))

  unfoldable pub camera_round : Bytes → Frame C → Display C → Result (Display C × Bool)
  unfolding store_name drawing
  camera_round user f s = bind (plus_one s.count) (λ count.
      if leb 35 count && f.has_data
      then send_picture user f s
      else ok (show_frame f (record s { count = count })))

  -- The loop, for the frames that the camera gives.
  unfoldable pub camera_rounds : Bytes → List (Frame C) → Display C → Result (Display C)
  camera_rounds user [] s = ok s
  camera_rounds user (f ∷ frames) s =
      let rest = bind (camera_round user f s) (λ (t, goes_on).
        let later = camera_rounds user frames t in if goes_on then later else ok t) in
      if f.stop then ok s else rest

-- The names of `n` pictures from an index on.
abbrev pub picture_names : Bytes → ℕ → ℕ → List Bytes
picture_names user index zero = []
picture_names user index (suc n) = picture_name user index ∷ picture_names user (index + 1) n

length-picture_name :
    (user : Bytes) (i : ℕ) → length user < 80 → i < 2 ^ 31 → length (picture_name user i) < 100
length-picture_name user i short small = omega (
  arith,
  length-append user (codes "-" ++ (print_nat i ++ codes ".jpg")),
  length-append (print_nat i) (codes ".jpg"),
  length-print_nat-le i small,
)

-- A frame with data whose thread is created, without ESC or a stop.
abbrev pub IsGood : {C : Type 0} → Frame C → Type 0
IsGood f = (f.has_data ≡ true) × (f.created ≡ true) × (f.escape ≡ false) × (f.stop ≡ false)

abbrev pub AllGood : {C : Type 0} → List (Frame C) → Type 0
AllGood [] = Unit {0}
AllGood (f ∷ frames) = IsGood f × AllGood frames

abbrev pub drawings : {C : Type 0} → List (Frame C) → List (List (Stroke C))
drawings [] = []
drawings (f ∷ frames) = drawing f.shown ∷ drawings frames

-- The loop after `k` pictures, with `r` frames since the last.
abbrev pub after : {C : Type 0} → Bytes → ℕ → ℕ → List (Frame C) → Display C → Display C
after user k r frames s = record {
  index = s.index + k;
  count = r;
  sent = s.sent ++ picture_names user s.index k;
  window = s.window ++ drawings frames;
}

module _ {C : Type 0} (user : Bytes) (short : length user < 80) where
  round_counts :
      (f : Frame C) (s : Display C)
      → IsGood f
      → s.count < 34
      → camera_round user f s
        ≡ ok (record s { count = s.count + 1; window = s.window ++ drawing f.shown ∷ [] }, true)
  unfolding camera_round
  round_counts f s (d, c, e, g) low = ground (arith, low)

  round_sends :
      (f : Frame C) (s : Display C)
      → IsGood f
      → s.count ≡ 34
      → s.index < int_max
      → camera_round user f s
        ≡ ok (
          record {
            index = s.index + 1;
            count = 0;
            sent = s.sent ++ picture_name user s.index ∷ [];
            window = s.window ++ drawing f.shown ∷ [];
          },
          true,
        )
  unfolding camera_round store_name
  round_sends f s (d, c, e, g) at room =
      ground (arith, at, length-picture_name user s.index short (omega (arith, room)))

  loop_step :
      (f : Frame C) (frames : List (Frame C)) (s t : Display C)
      → f.stop ≡ false
      → camera_round user f s ≡ ok (t, true)
      → camera_rounds user (f ∷ frames) s ≡ camera_rounds user frames t
  unfolding camera_rounds
  loop_step f frames s t on e = ground (arith, on, e)

  rounds_after :
      (frames : List (Frame C)) (k r : ℕ) (s : Display C)
      → AllGood frames
      → s.count < 35
      → r < 35
      → s.count + length frames ≡ 35 * k + r
      → s.index + k ≤ int_max
      → camera_rounds user frames s ≡ ok (after user k r frames s)
  unfolding camera_rounds
  rounds_after [] zero r s good low rest at room =
      ground (arith, at, append-nil s.sent, append-nil s.window)
  rounds_after [] (suc k) r s good low rest at room = absurd (omega (arith, at, low))
  rounds_after (f ∷ frames) zero r s (g, good) low rest at room =
      let t : Display C = record s {
        count = s.count + 1;
        window = s.window ++ drawing f.shown ∷ [];
      } in
      loop_step f frames s t g.3 (round_counts f s g (omega (arith, at, rest)))
      ∙ rounds_after frames zero r t good (omega (arith, at, rest)) rest (omega (arith, at)) room
      ∙ ap (λ (d : Display C). ok d)
          (ground (arith, append_assoc s.window (drawing f.shown ∷ []) (drawings frames)))
  rounds_after (f ∷ frames) (suc k) r s (g, good) low rest at room = elim (dec_lt s.count 34) [
    | yes h ↦
        let t : Display C = record s {
          count = s.count + 1;
          window = s.window ++ drawing f.shown ∷ [];
        } in
        loop_step f frames s t g.3 (round_counts f s g h)
        ∙ rounds_after frames (suc k) r t good (omega (arith, h)) rest (omega (arith, at)) room
        ∙ ap (λ (d : Display C). ok d)
            (ground (arith, append_assoc s.window (drawing f.shown ∷ []) (drawings frames)))
    | no h ↦
        let full : s.count ≡ 34 = omega (arith, h, low) in
        let t : Display C = record {
          index = s.index + 1;
          count = 0;
          sent = s.sent ++ picture_name user s.index ∷ [];
          window = s.window ++ drawing f.shown ∷ [];
        } in
        loop_step f frames s t g.3 (round_sends f s g full (omega (arith, room)))
        ∙ rounds_after frames k r t good (omega arith) rest (omega (arith, at, full))
            (omega (arith, room))
        ∙ ap (λ (d : Display C). ok d)
            (ground (
              arith,
              append_assoc s.window (drawing f.shown ∷ []) (drawings frames),
              append_assoc s.sent (picture_name user s.index ∷ [])
                  (picture_names user (s.index + 1) k),
            ))
  ]

  -- Over frames with data, whose threads are created, without ESC or a stop, the loop sends every
  -- 35th frame under consecutive numbers and draws on each what is shown, for a user name shorter
  -- than 80 bytes, while the numbers stay below 2^31.
  pub camera_rounds_lem :
      (frames : List (Frame C)) (s : Display C)
      → AllGood frames
      → s.count < 35
      → s.index + (s.count + length frames) / 35 ≤ int_max
      → camera_rounds user frames s
        ≡ ok (after user ((s.count + length frames) / 35) ((s.count + length frames) % 35) frames s)
  camera_rounds_lem frames s good low room =
      rounds_after frames ((s.count + length frames) / 35) ((s.count + length frames) % 35) s good
        low (omega arith) (omega arith) room
