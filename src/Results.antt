-- ===== src/Results.antt =====
-- The answer to a picture: `result_child` of server/server-OpenCV.cpp writes it, `result_thread` of
-- client/client-OpenCV.cpp reads it. `get_info` stands for the text file of an image, `atof` for
-- the C function.
pub mod InfoFile
use painting_cps.Prelude.{
  ℕ, zero, suc, ◌+◌, ◌<◌, ◌≡◌, ◌≢◌, refl, List, [], ◌∷◌, ◌++◌, false, Option, none, some, ◌==◌,
  beq_bytes, if◌then◌else◌, arith, append_assoc, length, map, take, drop, replicate, ap, ◌∙◌,
}
use painting_cps.Exec.{Result, ok, fault, bind, null_pointer}
use painting_cps.CText.{Bytes, codes, print_nat, sprintf, Token, strtok, strtok_next}
use painting_cps.CText.Tokens.{IsPlain, AllDigits-IsPlain, strtok-word}
use painting_cps.CText.Copies.{sprintf-fits}
use painting_cps.CText.Decimal.{print_nat-AllDigits, print_nat-ne-nil}

-- `defMsg`, with its NUL.
unfoldable pub def_msg : Bytes
def_msg = codes "none" ++ 0 ∷ []

-- `%s,%d,%d,...,%d,` with eight zeros for the coordinates.
unfoldable pub send_info : Bytes → ℕ → Bytes
send_info info index = info ++ b',' ∷ (print_nat index ++ codes ",0,0,0,0,0,0,0,0,")

-- `sizeof(sendInfo)` in `result_child`.
abbrev pub send_info_size : ℕ
send_info_size = 200

-- The message of `result_child` for the matched index; `stack n` is what an array of `n` bytes holds
-- before it is written.
unfoldable pub result_message : (ℕ → Bytes) → (ℕ → Bytes) → ℕ → Result Bytes
unfolding def_msg send_info
result_message get_info stack matched_index =
    if matched_index == 0
    then ok def_msg
    else sprintf (stack send_info_size) (send_info (get_info matched_index) matched_index)

-- What the client shows. `draw_result` is 0 when there is no match.
pub record Shown (Coordinate : Type 0) : Type 0 where
  pub draw_result : ℕ
  pub result_title : Bytes
  pub result_artist : Bytes
  pub result_date : Bytes
  pub match_index : Bytes
  pub coord : List Coordinate

-- A token that is used as a string.
abbrev pub token : Option Token → Result Token
token none = fault null_pointer
token (some t) = ok t

-- Calls of `strtok(NULL, ",")`, each used as a string.
unfoldable pub next_fields : ℕ → Token → Result (List Bytes)
next_fields zero t = ok []
next_fields (suc k) t =
    bind (strtok_next b',' (some t))
      (λ found. bind (token found) (λ u. bind (next_fields k u) (λ us. ok (u.text ∷ us))))

-- The assignments of the fields, in their order.
unfoldable pub assign :
    {Coordinate : Type 0}
    → (Bytes → Coordinate)
    → Shown Coordinate
    → Bytes
    → List Bytes
    → Shown Coordinate
assign atof shown title (artist ∷ date ∷ index ∷ coords) = record {
  draw_result = 1;
  result_title = codes "Title: " ++ title;
  result_artist = codes "Artist: " ++ artist;
  result_date = codes "Date: " ++ date;
  match_index = index;
  coord = map atof coords;
}
assign atof shown title fields = shown

-- The client's reading of an answer in its buffer.
unfoldable pub show_result :
    {Coordinate : Type 0}
    → (Bytes → Coordinate)
    → Shown Coordinate
    → Bytes
    → Result (Shown Coordinate)
unfolding def_msg
show_result atof shown buffer =
    if beq_bytes (take 5 buffer) def_msg
    then ok (record shown { draw_result = 0 })
    else bind (strtok b',' 0 buffer) (λ found.
      bind (token found)
        (λ t. bind (next_fields 11 t) (λ fields. ok (assign atof shown t.text fields))))

-- Fields, each with a comma behind it.
abbrev join : List Bytes → Bytes
join [] = []
join (w ∷ ws) = w ++ b',' ∷ join ws

abbrev pub AllFields : List Bytes → Type 0
AllFields [] = Unit {0}
AllFields (w ∷ ws) = (w ≢ []) × IsPlain b',' w × AllFields ws

next_fields-join :
    (ws : List Bytes) (t : Token) (tail : Bytes)
    → AllFields ws
    → t.rest ≡ join ws ++ tail
    → next_fields (length ws) t ≡ ok ws
unfolding next_fields strtok_next
next_fields-join [] t tail h e = refl
next_fields-join (w ∷ ws) t tail (ne, plain, h) e =
    let found = strtok-word b',' t.next w (join ws ++ tail) (λ x. omega (arith, x)) ne plain in
    let u : Token = record {
      at = t.next;
      text = w;
      next = t.next + length w + 1;
      rest = join ws ++ tail;
    } in
    let more = next_fields-join ws u tail h refl in
    rw (e, append_assoc w (b',' ∷ join ws) tail) (ground (arith, found, more))

-- A text whose first field is plain is not "none".
not_none : (w s : Bytes) → IsPlain b',' w → beq_bytes (take 5 (w ++ b',' ∷ s)) def_msg ≡ false
unfolding def_msg
not_none [] s h = ground arith
not_none (a ∷ []) s h = ground arith
not_none (a ∷ b ∷ []) s h = ground arith
not_none (a ∷ b ∷ c ∷ []) s h = ground arith
not_none (a ∷ b ∷ c ∷ d ∷ []) s h = ground arith
not_none (a ∷ b ∷ c ∷ d ∷ e ∷ w) s (ha, ka, (hb, kb, (hc, kc, (hd, kd, (he, ke, h))))) =
    ground (arith, he)

zero_field : (codes "0" ≢ []) × IsPlain b',' (codes "0")
zero_field = ground arith

-- The fields behind the title.
abbrev later_fields : Bytes → Bytes → ℕ → List Bytes
later_fields artist date index = artist ∷ date ∷ print_nat index ∷ replicate 8 (codes "0")

send_info-join :
    (title artist date : Bytes) (index : ℕ)
    → send_info (title ++ b',' ∷ (artist ++ b',' ∷ date)) index
      ≡ title ++ b',' ∷ join (later_fields artist date index)
unfolding send_info
send_info-join title artist date index =
    let end = b',' ∷ (print_nat index ++ codes ",0,0,0,0,0,0,0,0,") in
    append_assoc title (b',' ∷ (artist ++ b',' ∷ date)) end
    ∙ ap (λ (t : Bytes). title ++ b',' ∷ t) (append_assoc artist (b',' ∷ date) end)

later_fields-AllFields :
    (artist date : Bytes) (index : ℕ)
    → AllFields (artist ∷ date ∷ [])
    → AllFields (later_fields artist date index)
later_fields-AllFields artist date index (na, pa, (nd, pd, h)) =
    let (nz, pz) = zero_field in
    (
      na,
      pa,
      (
        nd,
        pd,
        (
          print_nat-ne-nil index,
          AllDigits-IsPlain (print_nat index) (print_nat-AllDigits index),
          (nz, pz, (nz, pz, (nz, pz, (nz, pz, (nz, pz, (nz, pz, (nz, pz, (nz, pz, tt)))))))),
        ),
      ),
    )

-- What the client shows for a match.
unfoldable pub matched :
    {Coordinate : Type 0} → (Bytes → Coordinate) → Bytes → Bytes → Bytes → ℕ → Shown Coordinate
matched atof title artist date index = record {
  draw_result = 1;
  result_title = codes "Title: " ++ title;
  result_artist = codes "Artist: " ++ artist;
  result_date = codes "Date: " ++ date;
  match_index = print_nat index;
  coord = replicate 8 (atof (codes "0"));
}

-- For an image whose information is a title, an artist and a date, none of them empty or with a
-- comma or NUL, the client shows them with the index that the server matched, if that is not 0 and
-- the answer has less than 200 bytes, whatever follows it in the buffer.
pub show_result-result_message :
    {Coordinate : Type 0} (atof : Bytes → Coordinate) (get_info : ℕ → Bytes)
    (shown : Shown Coordinate) (stack : ℕ → Bytes) (title artist date tail : Bytes) (index : ℕ)
    → length (stack send_info_size) ≡ send_info_size
    → index ≢ 0
    → get_info index ≡ title ++ b',' ∷ (artist ++ b',' ∷ date)
    → AllFields (title ∷ artist ∷ date ∷ [])
    → length (send_info (get_info index) index) < send_info_size
    → (message : Bytes) × (result_message get_info stack index ≡ ok message)
      × (show_result atof shown (message ++ tail) ≡ ok (matched atof title artist date index))
unfolding result_message show_result matched assign
show_result-result_message atof get_info shown stack title artist date tail index sized some_match
      info h room =
    let raw = stack send_info_size in
    let text = send_info (get_info index) index in
    let rest = drop (length text + 1) raw in
    let later = later_fields artist date index in
    let whole : (text ++ 0 ∷ rest) ++ tail ≡ title ++ b',' ∷ (join later ++ (0 ∷ rest ++ tail)) =
      append_assoc text (0 ∷ rest) tail
      ∙ ap (λ (t : Bytes). t ++ (0 ∷ rest ++ tail))
          (ap (λ (t : Bytes). send_info t index) info ∙ send_info-join title artist date index)
      ∙ append_assoc title (b',' ∷ join later) (0 ∷ rest ++ tail) in
    let s = join later ++ (0 ∷ rest ++ tail) in
    let (nt, pt, others) = h in
    let first = strtok-word b',' 0 title s (λ x. omega (arith, x)) nt pt in
    let t : Token = record { at = 0; text = title; next = 0 + length title + 1; rest = s } in
    let fields =
      next_fields-join later t (0 ∷ rest ++ tail) (later_fields-AllFields artist date index others)
        refl in
    (
      text ++ 0 ∷ rest,
      ground (arith, some_match, sprintf-fits raw text (omega (arith, room, sized))),
      rw (whole, not_none title s pt, first) (rw fields refl),
    )

-- Without a match the client stops drawing a result and keeps what it showed.
pub show_result-no_match :
    {Coordinate : Type 0} (atof : Bytes → Coordinate) (get_info : ℕ → Bytes)
    (shown : Shown Coordinate) (stack : ℕ → Bytes) (tail : Bytes)
    → (message : Bytes) × (result_message get_info stack 0 ≡ ok message)
      × (show_result atof shown (message ++ tail) ≡ ok (record shown { draw_result = 0 }))
unfolding result_message show_result def_msg
show_result-no_match atof get_info shown stack tail = (codes "none" ++ 0 ∷ [], refl, refl)
