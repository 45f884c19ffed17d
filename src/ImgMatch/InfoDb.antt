-- ===== src/ImgMatch/InfoDb.antt =====
-- `init_infoDB` and `getMatchedImgInfo` of server/ImgMatch.cpp: the texts of the demonstration images.
-- The files are an association list from names to contents.
use native.Mathlib.Nat.{add-zero, zero-add}
use painting_cps.Prelude.{
  ℕ, zero, suc, ◌+◌, ◌/◌, ◌<◌, ◌≡◌, ◌≢◌, refl, ◌∙◌, ap, sym, false, List, [], ◌∷◌, ◌++◌, Option,
  none, some, arith, if◌then◌else◌, beq_bytes, bytes_eq, beq_bytes_iff, get_elem?, Bool-cases, inl,
  inr, drop, replicate,
}
use painting_cps.Prelude.Assoc.{find, insert, find-insert_self, find-insert_ne}
use painting_cps.CText.{Bytes, codes, print_nat, is_space, scan_digits}
use painting_cps.CText.Decimal.{scan_digits-append, scan_digits-print_nat, print_nat-AllDigits}

abbrev pub Files : Type 0
Files = List (Bytes × Bytes)

-- The array `infoDB` of 20 texts.
abbrev pub infos : List Bytes
infos =
    codes "winlab logo"
    ∷ codes "microware"
    ∷ codes "file extinguisher"
    ∷ codes "winlab door"
    ∷ codes "winlab inner door"
    ∷ codes "sofa"
    ∷ codes "working desk"
    ∷ codes "trash box"
    ∷ codes "orbit machine"
    ∷ codes "car"
    ∷ codes "computer display"
    ∷ replicate 9 []

-- `INFO_%d.txt`.
abbrev pub info_name : ℕ → Bytes
info_name i = codes "INFO_" ++ (print_nat i ++ codes ".txt")

-- The loop from the text `i` on. The path with the directory is made, but the file is opened by its
-- bare name.
unfoldable pub write_infos : ℕ → List Bytes → Files → Files
write_infos i [] files = files
write_infos i (t ∷ ts) files =
    write_infos (i + 1) ts (if beq_bytes t [] then files else insert (info_name i) t files)

unfoldable pub init_info_db : Bytes → Files → Files
unfolding write_infos
init_info_db add_db files = write_infos 0 infos files

-- `while (inFile >> info) cout << info;`
abbrev pub words : Bytes → Bytes
words [] = []
words (c ∷ s) = if is_space c then words s else c ∷ words s

abbrev text_in : Option Bytes → Bytes
text_in none = []
text_in (some content) = words content

-- The two lines in front, of which the second has no end.
abbrev pub info_lead : ℕ → ℕ → Bytes
info_lead matched_img_index index =
    codes "matchedImgIndex is: "
    ++ (print_nat matched_img_index ++ 10 ∷ (codes "info index is: " ++ print_nat index))

-- What is printed; `ceil(matchedImgIndex / double(2))` for an index that is not negative.
unfoldable pub get_matched_img_info : Files → Bytes → ℕ → Bytes
get_matched_img_info files img_info_add matched_img_index =
    let index = (matched_img_index + 1) / 2 in
    info_lead matched_img_index index ++ text_in (find (img_info_add ++ info_name index) files)

-- Different numbers give different names.
info_name-number : (n : ℕ) → scan_digits 0 (drop 5 (info_name n)) ≡ n
unfolding scan_digits
info_name-number n =
    scan_digits-append 0 (print_nat n) (codes ".txt") (print_nat-AllDigits n)
    ∙ scan_digits-print_nat n

info_name-ne : (n m : ℕ) → n ≢ m → info_name n ≢ info_name m
info_name-ne n m h e =
    h (
      sym (info_name-number n)
      ∙ ap (λ (s : Bytes). scan_digits 0 (drop 5 s)) e
      ∙ info_name-number m)

write_infos-below :
    (k i : ℕ) (ts : List Bytes) (files : Files)
    → k < i
    → find (info_name k) (write_infos i ts files) ≡ find (info_name k) files
unfolding write_infos
write_infos-below k i [] files h = refl
write_infos-below k i (t ∷ ts) files h = elim (Bool-cases (beq_bytes t [])) [
  | inl nothing ↦ rw nothing (write_infos-below k (i + 1) ts files (omega (arith, h)))
  | inr written ↦ rw written (
      write_infos-below k (i + 1) ts (insert (info_name i) t files) (omega (arith, h))
      ∙ find-insert_ne (info_name i) (info_name k) t files
          (info_name-ne i k (λ e. omega (arith, h, e))))
]

write_infos-at :
    (j i : ℕ) (ts : List Bytes) (files : Files) (t : Bytes)
    → get_elem? ts j ≡ some t
    → t ≢ []
    → find (info_name (i + j)) (write_infos i ts files) ≡ some t
unfolding write_infos
write_infos-at j i [] files t at ne = cc
write_infos-at zero i (u ∷ ts) files t at ne =
    let same : u ≡ t = cc at in
    let full : beq_bytes u [] ≡ false = ground (arith, same, ne, beq_bytes_iff u []) in
    rw (add-zero i) (
      rw full (
        write_infos-below i (i + 1) ts (insert (info_name i) u files) (omega arith)
        ∙ find-insert_self (info_name i) u files
        ∙ ap (λ (b : Bytes). some b) same))
write_infos-at (suc j) i (u ∷ ts) files t at ne =
    let moved : (i + 1) + j ≡ i + suc j = omega arith in
    rw (← moved) (
      write_infos-at j (i + 1) ts (if beq_bytes u [] then files else insert (info_name i) u files) t
        at ne)

-- With the empty directory that `init_matchImg` leaves, what is printed for the image i is the two
-- indices and then the text of the entry ceil(i / 2) of the array, which is not empty, without its
-- spaces, whatever directory the texts were meant for and whatever files there were.
pub get_matched_img_info-init_info_db :
    (add_db : Bytes) (files : Files) (i : ℕ) (t : Bytes)
    → get_elem? infos ((i + 1) / 2) ≡ some t
    → t ≢ []
    → get_matched_img_info (init_info_db add_db files) [] i ≡ info_lead i ((i + 1) / 2) ++ words t
unfolding get_matched_img_info init_info_db
get_matched_img_info-init_info_db add_db files i t at ne =
    let stored = write_infos-at ((i + 1) / 2) 0 infos files t at ne in
    rw (rw (zero-add ((i + 1) / 2)) at stored) refl
