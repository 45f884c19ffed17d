-- ===== src/ImgMatch/Database.antt =====
-- `init_DB` and `init_matchImg`: the descriptors of all images, the image of each, and their number.
use painting_cps.Prelude.{
  ℕ, zero, suc, ◌+◌, ◌-◌, List, [], ◌∷◌, ◌++◌, Option, none, some, ◌==◌, if◌then◌else◌, length,
  get_elem?, set, replicate,
}
use painting_cps.Exec.{Result, ok, fault, bind, out_of_range}
use painting_cps.CText.{Bytes, codes, print_nat}
use painting_cps.ImgMatch.Vision.{Vision}

-- `v.at(i)` throws where `i` is out of range.
unfoldable pub vector_at : List ℕ → ℕ → Result ℕ
vector_at v i = elim (get_elem? v i) [ none ↦ fault out_of_range | some x ↦ ok x ]

-- What the counting loop keeps: `index_IMG` with what it wrote to it, `dscCnt_IMG`, and the globals
-- `lastIndex` and `imgCount`.
pub record Counts : Type 0 where
  pub index_img : List ℕ
  pub dsc_cnt : List ℕ
  pub last_index : ℕ
  pub img_count : ℕ

-- One round for the entry `t`, a reference into `index_IMG`. The inner test `(t = lastIndex + 1)` is
-- an assignment, and its value is never 0.
unfoldable pub count_round : Counts → ℕ → Result Counts
unfolding vector_at
count_round c t =
    if t == c.last_index
    then bind (vector_at c.dsc_cnt (t - 1)) (λ n.
      ok (record c { index_img = c.index_img ++ t ∷ []; dsc_cnt = set c.dsc_cnt (t - 1) (n + 1) }))
    else let written = c.last_index + 1 in
      let next = record c {
        index_img = c.index_img ++ written ∷ [];
        dsc_cnt = c.dsc_cnt ++ 1 ∷ [];
        last_index = c.last_index + 1;
        img_count = c.img_count + 1;
      } in
      if c.img_count == 0
      then ok next
      else bind (vector_at c.dsc_cnt (c.img_count - 1)) (λ _. ok next)

unfoldable pub count_rounds : Counts → List ℕ → Result Counts
count_rounds c [] = ok c
count_rounds c (t ∷ ts) = bind (count_round c t) λ c'. count_rounds c' ts

abbrev pub no_counts : Counts
no_counts = record { index_img = []; dsc_cnt = []; last_index = 0; img_count = 0 }

-- What training leaves: the files `indexImgTable` and `indexDscNo`, and the feature cluster.
pub record Trained (Descriptor : Type 0) : Type 0 where
  pub index_table : List ℕ
  pub dsc_numbers : List ℕ
  pub cluster : List Descriptor

module _ {Image Descriptor Distance : Type 0} (v : Vision Image Descriptor Distance) where
  abbrev pub img_name : Bytes → ℕ → Bytes
  img_name add_db i = add_db ++ (print_nat i ++ codes ".jpg")

  -- The loop over the images `i`, `i + 1`, …, of which `n` are left: it gives up at the first that
  -- is not found.
  unfoldable pub collect :
      Bytes → ℕ → ℕ → List ℕ → List Descriptor → Option (List ℕ × List Descriptor)
  collect add_db zero i index_img cluster = some (index_img, cluster)
  collect add_db (suc n) i index_img cluster = elim (v.imread (img_name add_db i)) [
    | none ↦ none
    | some img ↦
        let desp_db = v.extract 2500 img in
        collect add_db n (i + 1) (index_img ++ replicate (length desp_db) i) (cluster ++ desp_db)
  ]

  -- `init_DB(size_DB, add_DB, …)`; none if it returns early, with nothing written.
  unfoldable pub init_db : Bytes → ℕ → Result (Option (Trained Descriptor))
  unfolding collect count_rounds
  init_db add_db size_db = elim (collect add_db size_db 1 [] []) [
    | none ↦ ok none
    | some (index_img, cluster) ↦ bind (count_rounds no_counts index_img) λ c.
        ok (some (record { index_table = index_img; dsc_numbers = c.dsc_cnt; cluster = cluster }))
  ]
