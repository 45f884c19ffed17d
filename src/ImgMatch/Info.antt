-- ===== src/ImgMatch/Info.antt =====
-- `getInfo` of server/ImgMatch.cpp: the last line of an image's text file. `read_file` gives the
-- content of a file, or none if it cannot be opened.
use painting_cps.Prelude.{
  ◌≡◌, ◌≢◌, refl, ◌∙◌, ℤ, pos, List, [], ◌∷◌, ◌++◌, Option, none, some, ◌==◌, if◌then◌else◌, arith,
  append_assoc, append-nil,
}
use painting_cps.CText.{Bytes, codes, print_int}
use painting_cps.ImgMatch.Match.{ImgMatch}

-- At the end of the file `getline` fails if it found nothing.
unfoldable at_end : Bytes → Bytes → Bytes
at_end info [] = info
at_end info (c ∷ line) = c ∷ line

-- The loop over `getline`; `line` is what was read of the line at hand.
unfoldable pub last_line : Bytes → Bytes → Bytes → Bytes
unfolding at_end
last_line info line [] = at_end info line
last_line info line (c ∷ s) =
    let ended = last_line line [] s in
    let longer = last_line info (line ++ c ∷ []) s in if c == 10 then ended else longer

unfoldable pub get_info : (Bytes → Option Bytes) → ℤ → Bytes
unfolding last_line
get_info read_file index =
    elim (read_file (codes "/demo/info/" ++ (print_int index ++ codes ".txt"))) [
      | none ↦ []
      | some content ↦ last_line [] [] content
    ]

-- `getInfo()`, for the image that was matched.
unfoldable pub matched_info : {D : Type 0} → (Bytes → Option Bytes) → ImgMatch D → Bytes
unfolding get_info
matched_info read_file m = get_info read_file (pos m.matched_img_index)

abbrev pub IsLine : Bytes → Type 0
IsLine [] = Unit {0}
IsLine (c ∷ s) = (c ≢ 10) × IsLine s

-- Lines, each with its end.
abbrev pub lines : List Bytes → Bytes
lines [] = []
lines (l ∷ ls) = l ++ 10 ∷ lines ls

abbrev pub AllLines : List Bytes → Type 0
AllLines [] = Unit {0}
AllLines (l ∷ ls) = IsLine l × AllLines ls

last_line-line :
    (info line w s : Bytes)
    → IsLine w
    → last_line info line (w ++ 10 ∷ s) ≡ last_line (line ++ w) [] s
unfolding last_line
last_line-line info line [] s h = rw (append-nil line) refl
last_line-line info line (c ∷ w) s (hc, h) =
    ground (arith, hc, last_line-line info (line ++ c ∷ []) w s h, append_assoc line (c ∷ []) w)

last_line-lines :
    (info l : Bytes) (ls : List Bytes)
    → AllLines ls
    → IsLine l
    → last_line info [] (lines ls ++ (l ++ 10 ∷ [])) ≡ l
last_line-lines info l [] h hl = last_line-line info [] l [] hl ∙ unfold last_line in refl
last_line-lines info l (k ∷ ls) (hk, h) hl =
    rw (append_assoc k (10 ∷ lines ls) (l ++ 10 ∷ []))
      (last_line-line info [] k (lines ls ++ (l ++ 10 ∷ [])) hk ∙ last_line-lines k l ls h hl)

-- The information of an image is the last line of its file.
pub get_info-lines :
    (read_file : Bytes → Option Bytes) (index : ℤ) (ls : List Bytes) (l : Bytes)
    → read_file (codes "/demo/info/" ++ (print_int index ++ codes ".txt"))
      ≡ some (lines ls ++ (l ++ 10 ∷ []))
    → AllLines ls
    → IsLine l
    → get_info read_file index ≡ l
unfolding get_info
get_info-lines read_file index ls l found h hl = rw (get_info, found) (last_line-lines [] l ls h hl)
