-- ===== src/ImgMatch/Location/Laws.antt =====
-- `calLocation` finds the outline from the good matches, and `locateDrawRect` draws it.
use painting_cps.Prelude.{
  ℕ, ◌+◌, ◌<◌, ◌≡◌, ◌≢◌, inl, inr, refl, sym, ap, ◌∙◌, ℤ, List, [], ◌∷◌, ◌++◌, ltb, leb,
  if◌then◌else◌, length, length-append, get_elem?, get_elem?-some, map, Option, some, append_assoc,
  append-nil, arith, Bool-cases,
}
use painting_cps.Exec.{ok, fault, out_of_range}
use painting_cps.CText.{codes, print_nat}
use painting_cps.ImgMatch.Location.{
  Point, DMatch, Corners, Geometry, Locating, Line, element, distances, select_good, pair_points,
  outline, scene_corners, cal_location, locate_draw_rect, corner_at,
}

element-behind :
    {A : Type 0} (pre : List A) (t : A) (ts : List A) → element (pre ++ t ∷ ts) (length pre) ≡ ok t
element-behind [] t ts = refl
element-behind (p ∷ pre) t ts = element-behind pre t ts

length-snoc : {A : Type 0} (pre : List A) (t : A) → length (pre ++ t ∷ []) ≡ length pre + 1
length-snoc pre t = length-append pre (t ∷ [])

-- Every index of a match is one of a key point.
abbrev pub AllFit : {N : Type 0} → ℕ → ℕ → List (DMatch N) → Type 0
AllFit p q [] = Unit
AllFit p q (t ∷ ts) = (t.query_idx < p) × (t.train_idx < q) × AllFit p q ts

module _ {Image Descriptor Homography Number : Type 0}
    (g : Geometry Image Descriptor Homography Number) where
  -- The least distance, from a bound on.
  abbrev pub least : Number → List (DMatch Number) → Number
  least lo [] = lo
  least lo (t ∷ ts) = least (if g.less t.distance lo then t.distance else lo) ts

  -- The matches closer than three times a distance.
  abbrev pub near : Number → List (DMatch Number) → List (DMatch Number)
  near lo [] = []
  near lo (t ∷ ts) =
      let rest = near lo ts in
      if g.less t.distance (g.times (g.number 3) lo) then t ∷ rest else rest

  distances-least :
      (pre ts : List (DMatch Number)) (lo hi : Number)
      → (top : Number) × (distances g (pre ++ ts) (length ts) (length pre) lo hi
          ≡ ok (least lo ts, top))
  unfolding distances
  distances-least pre [] lo hi = (hi, refl)
  distances-least pre (t ∷ ts) lo hi =
      let rest =
        distances-least (pre ++ t ∷ []) ts (if g.less t.distance lo then t.distance else lo)
          (if g.less hi t.distance then t.distance else hi) in
      (
        rest.0,
        rw (element-behind pre t ts)
            (rw (append_assoc pre (t ∷ []) ts, length-snoc pre t) at rest.1),
      )

  select_good-near :
      (pre ts good : List (DMatch Number)) (lo : Number)
      → select_good g (pre ++ ts) (length ts) (length pre) lo good ≡ ok (good ++ near lo ts)
  unfolding select_good
  select_good-near pre [] good lo = ap ok (sym (append-nil good))
  select_good-near pre (t ∷ ts) good lo =
      elim (Bool-cases (g.less t.distance (g.times (g.number 3) lo))) [
        | inl close ↦
            rw (element-behind pre t ts, close)
              (rw (append_assoc pre (t ∷ []) ts, length-snoc pre t) at
                  (select_good-near (pre ++ t ∷ []) ts (good ++ t ∷ []) lo)
                ∙ ap ok (append_assoc good (t ∷ []) (near lo ts)))
        | inr far ↦
            rw (element-behind pre t ts, far)
              (rw (append_assoc pre (t ∷ []) ts, length-snoc pre t) at
                (select_good-near (pre ++ t ∷ []) ts good lo))
      ]

  -- The points that matches refer to, in the matched image and in the picture.
  abbrev pub PointsOf :
      List (Point Number)
      → List (Point Number)
      → List (DMatch Number)
      → List (Point Number)
      → List (Point Number)
      → Type 0
  PointsOf key_points2 key_points1 ts obj scene =
      (map (λ (t : DMatch Number). get_elem? key_points2 t.query_idx) ts ≡ map some obj)
      × (map (λ (t : DMatch Number). get_elem? key_points1 t.train_idx) ts ≡ map some scene)

  pair_points-AllFit :
      (key_points2 key_points1 : List (Point Number)) (ts : List (DMatch Number))
      → AllFit (length key_points2) (length key_points1) ts
      → (obj : List (Point Number)) × (scene : List (Point Number)) × (pair_points g key_points2
            key_points1 ts
          ≡ ok (obj, scene))
        × PointsOf key_points2 key_points1 ts obj scene
  unfolding pair_points
  pair_points-AllFit ps qs [] h = ([], [], refl, (refl, refl))
  pair_points-AllFit ps qs (t ∷ ts) (hp, hq, h) =
      let (p, fp) = get_elem?-some ps t.query_idx hp in
      let (q, fq) = get_elem?-some qs t.train_idx hq in
      let (obj, scene, more, (objs, scenes)) = pair_points-AllFit ps qs ts h in
      (p ∷ obj, q ∷ scene, ground (arith, fp, fq, more), (rw (fp, objs) refl, rw (fq, scenes) refl))

  AllFit-near :
      (p q : ℕ) (lo : Number) (ts : List (DMatch Number)) → AllFit p q ts → AllFit p q (near lo ts)
  AllFit-near p q lo [] h = tt
  AllFit-near p q lo (t ∷ ts) (hp, hq, h) = ground (arith, AllFit-near p q lo ts h)

  -- What `calLocation` works with for an object: the matched image's key points, and the matches.
  abbrev pub matched_features : Locating Descriptor Number → List (Point Number) × List Descriptor
  matched_features m =
      g.features m.min_hessian
        (g.imread (codes "/demo/img/" ++ (print_nat m.matched_img_index ++ codes ".jpg")))

  abbrev pub matches_of : Locating Descriptor Number → List (DMatch Number)
  matches_of m = g.match (matched_features m).1 m.desp_src

  -- The matches closer than three times the least distance.
  abbrev pub good_matches : Locating Descriptor Number → List (DMatch Number)
  good_matches m = near (least (g.number 100) (matches_of m)) (matches_of m)

  abbrev pub image_of : Locating Descriptor Number → Option Image
  image_of m = g.imread (codes "/demo/img/" ++ (print_nat m.matched_img_index ++ codes ".jpg"))

  -- The points of the good matches.
  abbrev pub GoodPoints :
      Locating Descriptor Number → List (Point Number) → List (Point Number) → Type 0
  GoodPoints m obj scene = PointsOf (matched_features m).0 m.key_points1 (good_matches m) obj scene

  --
  pub cal_location_lem :
      (m : Locating Descriptor Number)
      → m.matched_img_index ≢ 0
      → length (matches_of m) ≡ length (matched_features m).1
      → AllFit (length (matched_features m).0) (length m.key_points1) (matches_of m)
      → (obj : List (Point Number)) × (scene : List (Point Number)) × (cal_location g m
          ≡ ok (
              if ltb (length (good_matches m)) 4 then m else record m {
                matched_location =
                    (if leb 8 (length m.matched_location) then [] else m.matched_location)
                    ++ outline g (scene_corners g (image_of m) (g.find_homography obj scene));
              }))
        × GoodPoints m obj scene
  unfolding cal_location
  cal_location_lem m some_match sized fit =
      let lo = least (g.number 100) (matches_of m) in
      let (top, found) = distances-least [] (matches_of m) (g.number 100) (g.number 0) in
      let good = select_good-near [] (matches_of m) [] lo in
      let (obj, scene, paired, points) =
        pair_points-AllFit (matched_features m).0 m.key_points1 (good_matches m)
          (AllFit-near _ _ lo (matches_of m) fit) in
      (obj, scene, ground (arith, some_match, sized, found, good, paired), points)

  abbrev pub int_point : (Number → ℤ) → Point Number → Point ℤ
  int_point cut p = record { x = cut p.x; y = cut p.y }

  -- The sides of the outline.
  abbrev pub sides : (Number → ℤ) → Corners Number → List Line
  sides cut s =
      record { from = int_point cut s.a; to = int_point cut s.b }
      ∷ record { from = int_point cut s.b; to = int_point cut s.c }
      ∷ record { from = int_point cut s.c; to = int_point cut s.d }
      ∷ record { from = int_point cut s.d; to = int_point cut s.a }
      ∷ []

  draw_outline :
      (cut : Number → ℤ) (m : Locating Descriptor Number) (s : Corners Number)
      → m.matched_img_index ≢ 0
      → locate_draw_rect cut (outline g s) m ≡ ok (sides cut s, record m { matched_location = [] })
  unfolding locate_draw_rect outline
  draw_outline cut m s some_match = ground (arith, some_match)

  draw_nothing :
      (cut : Number → ℤ) (m : Locating Descriptor Number) (location : List Number)
      → m.matched_img_index ≢ 0
      → location ≡ []
      → locate_draw_rect cut location m ≡ fault out_of_range
  unfolding locate_draw_rect corner_at
  draw_nothing cut m location some_match empty = ground (arith, some_match, empty)

  -- Where a point of the matched image comes to lie in the picture.
  abbrev pub moved : (Number → ℤ) → List (Point Number) → List (Point Number) → ℕ → ℕ → Point ℤ
  moved cut obj scene x y =
      int_point cut
        (g.project (g.find_homography obj scene) (record { x = g.number x; y = g.number y }))

  -- The four sides of an image, from the corner at its origin on along its first row.
  abbrev pub frame_lines :
      (Number → ℤ) → List (Point Number) → List (Point Number) → ℕ × ℕ → List Line
  frame_lines cut obj scene (cols, rows) =
      record { from = moved cut obj scene 0 0; to = moved cut obj scene cols 0 }
      ∷ record { from = moved cut obj scene cols 0; to = moved cut obj scene cols rows }
      ∷ record { from = moved cut obj scene cols rows; to = moved cut obj scene 0 rows }
      ∷ record { from = moved cut obj scene 0 rows; to = moved cut obj scene 0 0 }
      ∷ []

  -- For a matched image, no location yet, one match for each of its descriptors and indices of key
  -- points in all matches, calLocation returns; with four matches or more closer than three times
  -- the least distance and 100, locateDrawRect then draws the four sides of the matched image, moved
  -- by the homography from the image's points of these matches to the picture's points of them, and
  -- clears the location, and with fewer its first access to the empty location throws.
  pub locate_draw_rect-cal_location :
      (cut : Number → ℤ) (m : Locating Descriptor Number)
      → m.matched_img_index ≢ 0
      → m.matched_location ≡ []
      → length (matches_of m) ≡ length (matched_features m).1
      → AllFit (length (matched_features m).0) (length m.key_points1) (matches_of m)
      → (n : Locating Descriptor Number) × (obj : List (Point Number)) × (scene : List
          (Point Number))
        × (cal_location g m ≡ ok n)
        × GoodPoints m obj scene
        × (locate_draw_rect cut n.matched_location n ≡ (
            if ltb (length (good_matches m)) 4
            then fault out_of_range
            else ok (frame_lines cut obj scene (g.image_size (image_of m)), m)))
  unfolding scene_corners
  locate_draw_rect-cal_location cut m some_match empty sized fit =
      let (obj, scene, found, points) = cal_location_lem m some_match sized fit in
      let s = scene_corners g (image_of m) (g.find_homography obj scene) in
      elim (Bool-cases (ltb (length (good_matches m)) 4)) [
        | inl few ↦ (
          m,
          obj,
          scene,
          rw few at found,
          points,
          draw_nothing cut m m.matched_location some_match empty ∙ rw few refl,
        )
        | inr enough ↦ (
          record m { matched_location = outline g s },
          obj,
          scene,
          found ∙ ground (arith, enough, empty),
          points,
          draw_outline cut (record m { matched_location = outline g s }) s some_match
              ∙ ap (λ (l : List Number). ok (sides cut s, record m { matched_location = l }))
                  (sym empty)
              ∙ rw enough refl,
        )
      ]
