-- ===== src/Results/InfoFile.antt =====
-- From the text file of an image on the server, which `getInfo` of server/ImgMatch.cpp reads, to what
-- the client shows.
use painting_cps.Prelude.{ℕ, ◌<◌, ◌≡◌, ◌≢◌, pos, List, [], ◌∷◌, ◌++◌, Option, some, length}
use painting_cps.Exec.{ok}
use painting_cps.CText.{Bytes, codes, print_int}
use painting_cps.ImgMatch.Info.{get_info, lines, AllLines, IsLine, get_info-lines}
use painting_cps.Results.{
  Shown, result_message, show_result, matched, send_info, send_info_size, AllFields,
  show_result-result_message,
}

-- The last line of an information file.
abbrev pub info_line : Bytes → Bytes → Bytes → Bytes
info_line title artist date = title ++ b',' ∷ (artist ++ b',' ∷ date)

-- When the last line of the image's file is a title, an artist and a date, none of them empty or
-- with a comma or NUL, the client shows them with the index that the server matched, if that is
-- not 0 and the answer has less than 200 bytes, whatever lines stand before it and whatever
-- follows the answer in the buffer.
pub show_result-get_info :
    {Coordinate : Type 0} (atof : Bytes → Coordinate) (read_file : Bytes → Option Bytes)
    (shown : Shown Coordinate) (stack : ℕ → Bytes) (title artist date tail : Bytes) (index : ℕ)
    (ls : List Bytes)
    → length (stack send_info_size) ≡ send_info_size
    → index ≢ 0
    → read_file (codes "/demo/info/" ++ (print_int (pos index) ++ codes ".txt"))
      ≡ some (lines ls ++ (info_line title artist date ++ 10 ∷ []))
    → AllLines ls
    → IsLine (info_line title artist date)
    → AllFields (title ∷ artist ∷ date ∷ [])
    → length (send_info (info_line title artist date) index) < send_info_size
    → (message : Bytes) × (result_message (λ n. get_info read_file (pos n)) stack index
        ≡ ok message)
      × (show_result atof shown (message ++ tail) ≡ ok (matched atof title artist date index))
show_result-get_info atof read_file shown stack title artist date tail index ls sized some_match
      file all line fields room =
    let info =
      get_info-lines read_file (pos index) ls (info_line title artist date) file all line in
    show_result-result_message atof (λ n. get_info read_file (pos n)) shown stack title artist date
      tail index sized some_match info fields (rw info room)
