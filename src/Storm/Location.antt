-- ===== src/Storm/Location.antt =====
-- `calLocation` of ImgMatch.cpp in storm/src/jvm/storm/winlab/cps: the search of the server's
-- `calLocation`, with a text of the first eight numbers as its answer. No call of it is left there.
use painting_cps.Prelude.{
  ℕ, zero, suc, ◌+◌, List, [], ◌∷◌, ◌++◌, ltb, leb, ◌==◌, if◌then◌else◌, length,
}
use painting_cps.Exec.{Result, ok, bind}
use painting_cps.CText.{Bytes, codes, print_nat}
use painting_cps.ImgMatch.Location.{
  Geometry, Locating, checked_at, distances, select_good, pair_points, scene_corners, outline,
}

abbrev pub no_location_text : Bytes
no_location_text = codes "0,0,0,0,0,0,0,0,"

-- The loop over the numbers, of which `n` are left from `i` on; `show` is the output of a `float`.
unfoldable pub location_string : {N : Type 0} → (N → Bytes) → List N → ℕ → ℕ → Bytes → Result Bytes
location_string show location zero i text = ok text
location_string show location (suc n) i text =
    bind (checked_at location i)
      λ x. location_string show location n (i + 1) (text ++ show x ++ b',' ∷ [])

module _ {Image Descriptor Homography Number : Type 0}
    (g : Geometry Image Descriptor Homography Number) (show : Number → Bytes) where
  unfoldable pub location_text :
      Locating Descriptor Number → Result (Locating Descriptor Number × Bytes)
  unfolding distances select_good pair_points scene_corners outline location_string
  location_text m =
      if m.matched_img_index == 0
      then ok (m, no_location_text)
      else let match_image =
          g.imread (codes "/demo/img/" ++ (print_nat m.matched_img_index ++ codes ".jpg")) in
        let (key_points2, desp_db) = g.features m.min_hessian match_image in
        let matches = g.match desp_db m.desp_src in
        bind (distances g matches (length desp_db) 0 (g.number 100) (g.number 0)) λ found.
          bind (select_good g matches (length desp_db) 0 found.0 []) λ good.
            if ltb (length good) 4
            then ok (m, no_location_text)
            else bind (pair_points g key_points2 m.key_points1 good) λ points.
              let corners = scene_corners g match_image (g.find_homography points.0 points.1) in
              let kept = if leb 8 (length m.matched_location) then [] else m.matched_location in
              let location = kept ++ outline g corners in
              bind (location_string show location 8 0 [])
                λ text. ok (record m { matched_location = location }, text)
