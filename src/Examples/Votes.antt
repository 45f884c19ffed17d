-- ===== src/Examples/Votes.antt =====
-- A vote over three rows, with numbers as images, descriptors and distances.
use painting_cps.Prelude.{
  ℕ, ◌-◌, ◌*◌, ◌≤◌, ◌≡◌, refl, List, [], ◌++◌, ◌∷◌, some, arith, ltb, if◌then◌else◌,
}
use painting_cps.Exec.{ok}
use painting_cps.CText.{codes}
use painting_cps.ImgMatch.InfoDb.{
  init_info_db, get_matched_img_info, info_lead, words, get_matched_img_info-init_info_db,
}
use painting_cps.ImgMatch.Vision.{Vision, Neighbours}
use painting_cps.ImgMatch.Database.{Counts, count_rounds, no_counts, vector_at}
use painting_cps.ImgMatch.Counting.{blocks, count_rounds_lem, count_rounds-gap}
use painting_cps.ImgMatch.Vote.{ImgFreq, find_img_num, max_freq, last_with}
use painting_cps.ImgMatch.Winner.{count, Tallied, ballots, winner-count}
use painting_cps.ImgMatch.Match.{ImgMatch, match_img}
use painting_cps.ImgMatch.Verdict.{match_img_lem}

abbrev pub row : ℕ → Neighbours ℕ
row n = record { nearest = n; first = 1; second = 2 }

abbrev pub vision : Vision ℕ ℕ ℕ
vision = record {
  imread = λ s. some 0;
  extract = λ h i. 1 ∷ 2 ∷ 3 ∷ [];
  knn_search = λ c d. row 0 ∷ row 2 ∷ row 1 ∷ [];
  is_distinct = λ a b. ltb (a * 5) (b * 4);
  below_share = λ n m. ltb (n * 1000) (m * 15);
}

abbrev pub images : ImgMatch ℕ
images = record {
  index_img = 1 ∷ 1 ∷ 2 ∷ [];
  dsc_cnt = 2 ∷ 1 ∷ [];
  feature_cluster = [];
  min_hessian = 400;
  matched_img_index = 0;
}

known : (k : ℕ) → 1 ≤ count k (1 ∷ 2 ∷ 1 ∷ []) → k ≤ 2
known k h = ground arith

match_img_lem_example :
    (w c : ℕ) × (vector_at images.dsc_cnt (w - 1) ≡ ok c)
    × (match_img vision [] images
        ≡ ok (record images {
          matched_img_index = if vision.below_share (count w (1 ∷ 2 ∷ 1 ∷ [])) c then 0 else w;
        }))
    × ((k : ℕ) → count k (1 ∷ 2 ∷ 1 ∷ []) ≤ count w (1 ∷ 2 ∷ 1 ∷ []))
unfolding ballots vector_at
match_img_lem_example =
    match_img_lem vision [] images 0 1 (2 ∷ 3 ∷ []) 1 (2 ∷ 1 ∷ []) refl refl refl (ground arith)
      known

abbrev votes : List ImgFreq
votes = record { img_index = 1; freq = 2 } ∷ record { img_index = 2; freq = 1 } ∷ []

tallied : Tallied (1 ∷ 2 ∷ 1 ∷ []) votes
unfolding find_img_num
tallied = record { exact = ground arith; complete = λ n e. ground arith }

winner-count_example :
    (count (last_with (max_freq 1 votes) 0 votes) (1 ∷ 2 ∷ 1 ∷ []) ≡ max_freq 1 votes)
    × ((n : ℕ) → count n (1 ∷ 2 ∷ 1 ∷ []) ≤ max_freq 1 votes)
winner-count_example = winner-count (1 ∷ 2 ∷ 1 ∷ []) votes tallied (ground arith)

count_rounds_lem_example :
    count_rounds no_counts (blocks 1 (2 ∷ 1 ∷ 3 ∷ []))
    ≡ ok (record {
      index_img = blocks 1 (2 ∷ 1 ∷ 3 ∷ []);
      dsc_cnt = 2 ∷ 1 ∷ 3 ∷ [];
      last_index = 3;
      img_count = 3;
    })
count_rounds_lem_example = count_rounds_lem (2 ∷ 1 ∷ 3 ∷ []) (ground arith)

count_rounds-gap_example :
    (c : Counts) × (count_rounds no_counts (blocks 1 (4 ∷ 0 ∷ 3 ∷ [])) ≡ ok c)
    × (c.dsc_cnt ≡ 4 ∷ 1 ∷ 2 ∷ [])
count_rounds-gap_example = count_rounds-gap 3 1

-- The texts go to files, and the one for image 3 is printed.
get_matched_img_info-init_info_db_example :
    get_matched_img_info (init_info_db (codes "/demo/info/") []) [] 3
    ≡ info_lead 3 2 ++ words (codes "file extinguisher")
get_matched_img_info-init_info_db_example =
    get_matched_img_info-init_info_db (codes "/demo/info/") [] 3 (codes "file extinguisher") refl
      (ground arith)
