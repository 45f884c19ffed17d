-- ===== src/Examples/Storms.antt =====
-- An answer by Storm, an outline and an information file.
use painting_cps.Prelude.{
  ℕ, ◌+◌, ◌-◌, ◌*◌, ◌≡◌, refl, ℤ, pos, List, [], ◌∷◌, ◌++◌, Option, some, arith, ltb, replicate,
  length-replicate, length, if◌then◌else◌,
}
use painting_cps.Exec.{ok, done, bind, fault, out_of_range}
use painting_cps.CText.{Bytes, codes, print_nat, digits, sprintf, c_string}
use painting_cps.ImgMatch.Match.{ImgMatch, match_img, decide}
use painting_cps.ImgMatch.Database.{vector_at}
use painting_cps.ImgMatch.Vote.{tally, last_with, add_vote, find_img_num, bump, max_freq}
use painting_cps.ImgMatch.Location.{
  Point, DMatch, Geometry, Locating, cal_location, locate_draw_rect,
}
use painting_cps.ImgMatch.Location.Laws.{
  good_matches, GoodPoints, frame_lines, locate_draw_rect-cal_location,
}
use painting_cps.ImgMatch.Info.{get_info}
use painting_cps.Results.{Shown, result_message, show_result, matched, send_info}
use painting_cps.Results.InfoFile.{show_result-get_info}
use painting_cps.Metrics.{Metrics, new_metrics, finish_request}
use painting_cps.Storm.Match.{match_text, match_text-match_img, output}
use painting_cps.Storm.Relay.{Answering, relay_round}
use painting_cps.Storm.Answers.{storm-answers}
use painting_cps.Examples.Votes.{vision, images}

abbrev image_bytes : Bytes
image_bytes = 255 ∷ 216 ∷ []

abbrev decode : Bytes → Option ℕ
decode s = some 0

match_text-match_img_example :
    match_text vision decode image_bytes (length image_bytes) images
    ≡ bind (match_img vision [] images) (λ n. ok (n, output n.matched_img_index))
match_text-match_img_example = match_text-match_img vision decode image_bytes [] 0 images refl refl

abbrev get_text : ℤ → Bytes
get_text i = codes "Iris,Monet,1914"

abbrev waiting : Answering
waiting = record { img_queue = codes "a.jpg" ∷ []; sent = []; metrics = new_metrics }

abbrev chosen : ImgMatch ℕ
chosen = record images { matched_img_index = 1 }

abbrev one_done : Metrics
one_done = record { request_submitted = 0; request_finished = 1 }

abbrev zeros : ℕ → Bytes
zeros n = replicate n 0

abbrev answer_bytes : Bytes
answer_bytes = codes "Iris,Monet,1914,1,0,0,0,0,0,0,0,0," ++ 0 ∷ replicate 165 0

storm-answers_example :
    (datagram : Bytes) × (relayed : Bytes) × (match_text vision decode image_bytes
        (length image_bytes)
        images
      ≡ ok (chosen, datagram))
    × (relay_round get_text zeros (some datagram) waiting
        ≡ done tt (record { img_queue = []; sent = [] ++ relayed ∷ []; metrics = one_done }))
    × (c_string relayed ≡ c_string answer_bytes)
unfolding match_img tally vector_at decide last_with add_vote find_img_num bump max_freq
    result_message finish_request new_metrics print_nat digits sprintf
storm-answers_example =
    storm-answers vision decode get_text zeros image_bytes [] (codes "a.jpg") answer_bytes 0 images
      chosen [] waiting one_done (length-replicate {A = ℕ} 200 0) (length-replicate {A = ℕ} 1024 0)
      refl refl refl (omega arith) refl refl refl

-- Numbers as coordinates; five matches, one of them far.
abbrev pair : ℕ → ℕ → DMatch ℕ
pair i d = record { query_idx = i; train_idx = i; distance = d }

abbrev point : ℕ → Point ℕ
point n = record { x = n; y = n }

abbrev five_points : List (Point ℕ)
five_points = point 1 ∷ point 2 ∷ point 3 ∷ point 4 ∷ point 5 ∷ []

abbrev plane : Geometry ℕ ℕ ℕ ℕ
plane = record {
  features = λ h image. (five_points, 1 ∷ 2 ∷ 3 ∷ 4 ∷ 5 ∷ []);
  imread = λ s. some 0;
  match = λ a b. pair 0 5 ∷ pair 1 4 ∷ pair 2 6 ∷ pair 3 40 ∷ pair 4 4 ∷ [];
  find_homography = λ ps qs. length ps;
  image_size = λ image. (9, 8);
  project = λ h p. record { x = p.x + h; y = p.y };
  less = ltb;
  number = λ n. n;
  plus = λ a b. a + b;
  minus = λ a b. a - b;
  times = λ a b. a * b;
  half = λ a. a;
  sqrt = λ a. a;
}

abbrev located : Locating ℕ ℕ
located = record {
  matched_img_index = 3;
  min_hessian = 400;
  key_points1 = five_points;
  desp_src = 1 ∷ [];
  matched_location = [];
}

locate_draw_rect-cal_location_example :
    (n : Locating ℕ ℕ) × (obj : List (Point ℕ)) × (scene : List (Point ℕ)) × (cal_location plane
        located
      ≡ ok n)
    × GoodPoints plane located obj scene
    × (locate_draw_rect pos n.matched_location n ≡ (
        if ltb (length (good_matches plane located)) 4
        then fault out_of_range
        else ok (frame_lines plane pos obj scene (9, 8), located)))
locate_draw_rect-cal_location_example =
    locate_draw_rect-cal_location plane pos located (omega arith) refl refl (ground arith)

abbrev info_file : Bytes → Option Bytes
info_file name = some (codes "old" ++ 10 ∷ (codes "Iris,Monet,1914" ++ 10 ∷ []))

abbrev nothing : Shown Bytes
nothing = record {
  draw_result = 0;
  result_title = [];
  result_artist = [];
  result_date = [];
  match_index = [];
  coord = [];
}

abbrev text : Bytes → Bytes
text s = s

show_result-get_info_example :
    (message : Bytes) × (result_message (λ n. get_info info_file (pos n)) zeros 7 ≡ ok message)
    × (show_result text nothing (message ++ [])
        ≡ ok (matched text (codes "Iris") (codes "Monet") (codes "1914") 7))
unfolding send_info print_nat digits
show_result-get_info_example =
    show_result-get_info text info_file nothing zeros (codes "Iris") (codes "Monet") (codes "1914")
      [] 7 (codes "old" ∷ []) (length-replicate {A = ℕ} 200 0) (omega arith) refl (ground arith)
      (ground arith) (ground arith) (omega arith)
