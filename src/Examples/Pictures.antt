-- ===== src/Examples/Pictures.antt =====
-- Pictures and their answers.
use painting_cps.Prelude.{
  ℕ, ◌≡◌, refl, ℤ, pos, [], ◌∷◌, ◌++◌, false, none, some, arith, replicate, length, map,
}
use painting_cps.Exec.{ok}
use painting_cps.CText.{Bytes, codes}
use painting_cps.Images.Info.{info_text}
use painting_cps.Images.Blocks.{fread_blocks}
use painting_cps.Images.Tcp.{send_tcp, tcp_request, tcp_request-file, received}
use painting_cps.Images.Orbit.{send_orbit, orbit_request, orbit_request-file, collected, arrive}
use painting_cps.Results.{Shown}
use painting_cps.Metrics.{
  submitted, finished, Metrics, apply, new_metrics, get_num_ongoing, get_metrics, get_metrics-load,
}

abbrev heap : ℕ → Bytes
heap n = replicate n 0

abbrev file : Bytes
file = 1 ∷ 2 ∷ 3 ∷ 4 ∷ 5 ∷ []

abbrev file_name : Bytes
file_name = codes "a.jpg"

-- The stream cuts five bytes into two and three.
tcp_request-file_example :
    tcp_request heap
      (info_text file_name 5 ++ 0 ∷ [])
      (some (1 ∷ 2 ∷ []) ∷ some (3 ∷ 4 ∷ 5 ∷ []) ∷ none ∷ [])
    ≡ ok (file_name, pos 5, received file (none ∷ []))
unfolding send_tcp fread_blocks
tcp_request-file_example =
    tcp_request-file heap file_name [] file (1 ∷ 2 ∷ []) ((3 ∷ 4 ∷ 5 ∷ []) ∷ []) (none ∷ []) refl
      (ground arith) (omega arith) (ground arith) (omega arith) (ground arith) refl

orbit_request-file_example :
    orbit_request false heap (info_text file_name 5 ++ 0 ∷ []) (map arrive (send_orbit file) ++ [])
    ≡ ok (file_name, pos 5, collected file [])
orbit_request-file_example =
    orbit_request-file false heap file_name [] file [] refl (ground arith) (omega arith)
      (ground arith) (omega arith) (omega arith)

abbrev mfsend : Bytes → ℤ
mfsend message = pos (length message)

abbrev nothing : Shown Bytes
nothing = record {
  draw_result = 0;
  result_title = [];
  result_artist = [];
  result_date = [];
  match_index = [];
  coord = [];
}

abbrev text : Bytes → Bytes
text s = s

abbrev info_of : ℕ → Bytes
info_of n = codes "Iris,Monet,1914"

get_metrics-load_example :
    (m : Metrics) × (apply new_metrics (submitted ∷ submitted ∷ finished ∷ []) ≡ ok m)
    × (get_num_ongoing m ≡ pos 1)
    × (get_metrics m ≡ pos 1)
get_metrics-load_example =
    get_metrics-load (submitted ∷ submitted ∷ finished ∷ []) (omega arith) (omega arith)
