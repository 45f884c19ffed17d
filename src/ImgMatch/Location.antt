-- ===== src/ImgMatch/Location.antt =====
-- `calLocation`, `locateDrawRect`, `locateDrawCirle` and `clearLocation` of server/ImgMatch.cpp: the
-- outline of the matched image in the picture. OpenCV's features, matcher and projections are
-- parameters, and so is the arithmetic of `float` and `double`.
pub mod Laws
use painting_cps.Prelude.{
  ℕ, zero, suc, ◌+◌, List, [], ◌∷◌, ◌++◌, Bool, Option, none, some, ◌==◌, ltb, leb, if◌then◌else◌,
  length, get_elem?, ℤ,
}
use painting_cps.Exec.{Result, ok, fault, bind, out_of_bounds, out_of_range}
use painting_cps.CText.{Bytes, codes, print_nat}

pub record Point (Number : Type 0) : Type 0 where
  pub x : Number
  pub y : Number

-- `DMatch`.
pub record DMatch (Number : Type 0) : Type 0 where
  pub query_idx : ℕ
  pub train_idx : ℕ
  pub distance : Number

pub record Corners (Number : Type 0) : Type 0 where
  pub a : Point Number
  pub b : Point Number
  pub c : Point Number
  pub d : Point Number

pub record Geometry (Image Descriptor Homography Number : Type 0) : Type 0 where
  -- the key points' positions and descriptors, for a Hessian threshold; an image may have no data
  pub features : ℕ → Option Image → List (Point Number) × List Descriptor
  pub imread : Bytes → Option Image
  pub match : List Descriptor → List Descriptor → List (DMatch Number)
  pub find_homography : List (Point Number) → List (Point Number) → Homography
  -- the columns and rows of an image
  pub image_size : Option Image → ℕ × ℕ
  -- `perspectiveTransform` of one point
  pub project : Homography → Point Number → Point Number
  pub less : Number → Number → Bool
  pub number : ℕ → Number
  pub plus : Number → Number → Number
  pub minus : Number → Number → Number
  pub times : Number → Number → Number
  pub half : Number → Number
  pub sqrt : Number → Number

-- The object's members that the functions use.
pub record Locating (Descriptor Number : Type 0) : Type 0 where
  pub matched_img_index : ℕ
  pub min_hessian : ℕ
  pub key_points1 : List (Point Number)
  pub desp_src : List Descriptor
  pub matched_location : List Number

-- `v[i]` of a vector.
abbrev pub element {ℓ} : {A : Type ℓ} → List A → ℕ → Result A
element v i = elim (get_elem? v i) [ none ↦ fault out_of_bounds | some x ↦ ok x ]

unfoldable pub clear_location : {D N : Type 0} → Locating D N → Locating D N
clear_location m = record m { matched_location = [] }

module _ {Image Descriptor Homography Number : Type 0}
    (g : Geometry Image Descriptor Homography Number) where
  -- The loop for `min_dist` and `max_dist`, of which `n` rounds are left from `i` on.
  unfoldable pub distances :
      List (DMatch Number) → ℕ → ℕ → Number → Number → Result (Number × Number)
  distances matches zero i min_dist max_dist = ok (min_dist, max_dist)
  distances matches (suc n) i min_dist max_dist = bind (element matches i) λ t.
      distances matches n (i + 1) (if g.less t.distance min_dist then t.distance else min_dist)
        (if g.less max_dist t.distance then t.distance else max_dist)

  -- The loop for `good_matches`.
  unfoldable pub select_good :
      List (DMatch Number) → ℕ → ℕ → Number → List (DMatch Number) → Result (List (DMatch Number))
  select_good matches zero i min_dist good = ok good
  select_good matches (suc n) i min_dist good = bind (element matches i) λ t.
      select_good matches n (i + 1) min_dist
        (if g.less t.distance (g.times (g.number 3) min_dist) then good ++ t ∷ [] else good)

  -- The loop for `obj` and `scene`.
  unfoldable pub pair_points :
      List (Point Number)
      → List (Point Number)
      → List (DMatch Number)
      → Result (List (Point Number) × List (Point Number))
  pair_points key_points2 key_points1 [] = ok ([], [])
  pair_points key_points2 key_points1 (t ∷ ts) = bind (element key_points2 t.query_idx) λ p.
      bind (element key_points1 t.train_idx)
        λ q. bind (pair_points key_points2 key_points1 ts) λ rest. ok (p ∷ rest.0, q ∷ rest.1)

  -- The numbers that are pushed for the four corners: the corners, the centre and the radius.
  unfoldable pub outline : Corners Number → List Number
  outline s =
      let wide = g.half (g.minus s.b.x s.a.x) in
      let high = g.half (g.minus s.d.y s.a.y) in
      s.a.x
      ∷ s.a.y
      ∷ s.b.x
      ∷ s.b.y
      ∷ s.c.x
      ∷ s.c.y
      ∷ s.d.x
      ∷ s.d.y
      ∷ g.plus s.a.x wide
      ∷ g.plus s.a.y high
      ∷ g.sqrt (g.plus (g.times wide wide) (g.times high high))
      ∷ []

  -- `obj_corners` and `scene_corners`.
  unfoldable pub scene_corners : Option Image → Homography → Corners Number
  scene_corners match_image h =
      let (cols, rows) = g.image_size match_image in
      let at = λ (x : ℕ) (y : ℕ). g.project h (record { x = g.number x; y = g.number y }) in
      record { a = at 0 0; b = at cols 0; c = at cols rows; d = at 0 rows }

  -- `calLocation()`: the object afterwards, whose `matched_location` is the value returned.
  unfoldable pub cal_location : Locating Descriptor Number → Result (Locating Descriptor Number)
  unfolding distances select_good pair_points scene_corners outline
  cal_location m =
      if m.matched_img_index == 0
      then ok m
      else let match_image =
          g.imread (codes "/demo/img/" ++ (print_nat m.matched_img_index ++ codes ".jpg")) in
        let (key_points2, desp_db) = g.features m.min_hessian match_image in
        let matches = g.match desp_db m.desp_src in
        bind (distances matches (length desp_db) 0 (g.number 100) (g.number 0)) λ found.
          bind (select_good matches (length desp_db) 0 found.0 []) λ good.
            if ltb (length good) 4
            then ok m
            else bind (pair_points key_points2 m.key_points1 good) λ points.
              let corners = scene_corners match_image (g.find_homography points.0 points.1) in
              let kept = if leb 8 (length m.matched_location) then [] else m.matched_location in
              ok (record m { matched_location = kept ++ outline corners })

-- `v.at(i)`.
abbrev pub checked_at : {N : Type 0} → List N → ℕ → Result N
checked_at v i = elim (get_elem? v i) [ none ↦ fault out_of_range | some x ↦ ok x ]

pub record Line : Type 0 where
  pub from : Point ℤ
  pub to : Point ℤ

-- `cut` is the conversion of a `float` to an `int`.
module _ {N : Type 0} (cut : N → ℤ) where
  -- `cvPoint(v.at(i), v.at(i + 1))`.
  unfoldable pub corner_at : List N → ℕ → Result (Point ℤ)
  corner_at v i =
      bind (checked_at v i)
        λ px. bind (checked_at v (i + 1)) λ py. ok (record { x = cut px; y = cut py })

  -- The four lines of `locateDrawRect`, and the object afterwards; `at` may throw.
  unfoldable pub locate_draw_rect :
      {D : Type 0} → List N → Locating D N → Result (List Line × Locating D N)
  unfolding clear_location corner_at
  locate_draw_rect location m =
      if m.matched_img_index == 0
      then ok ([], m)
      else bind (corner_at location 0) λ p. bind (corner_at location 2) λ q.
        bind (corner_at location 4) λ r. bind (corner_at location 6) λ s. ok (
          record { from = p; to = q }
              ∷ record { from = q; to = r }
              ∷ record { from = r; to = s }
              ∷ record { from = s; to = p }
              ∷ [],
          clear_location m,
        )

  -- The centre and the radius that `locateDrawCirle` draws.
  unfoldable pub locate_draw_circle : List N → Result (Point ℤ × ℤ)
  unfolding corner_at
  locate_draw_circle location =
      bind (corner_at location 8)
        λ center. bind (checked_at location 10) λ radius. ok (center, cut radius)
