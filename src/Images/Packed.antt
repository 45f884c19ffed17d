-- ===== src/Images/Packed.antt =====
-- A picture over MFPackager from `transmit_child` of client/client-OpenCV.cpp to the queue of
-- `server_transmit` in server/server-OpenCV.cpp, and how the server keeps a picture.
use painting_cps.Prelude.{
  ℕ, ◌+◌, ◌-◌, ◌^◌, ◌≤◌, ◌<◌, ◌≡◌, refl, ◌∙◌, ap, ℤ, pos, negsuc, Bool, false, List, [], ◌∷◌, ◌++◌,
  some, arith, is_neg, ◌==◌, length, length-append, take, drop, take-all, drop-all, append-nil,
  replicate, length-replicate,
}
use painting_cps.Exec.{Result, ok, bind, done, faults, out_of_bounds}
use painting_cps.CText.{Bytes, codes, print_nat, sprintf, overlay}
use painting_cps.CText.Copies.{sprintf-fits, overlay-fits, slice-behind}
use painting_cps.MsgDistributor.Frames.Laws.{length-print_nat-le}
use painting_cps.Calls.{create_file, store_file, net, returns}
use painting_cps.Client.Display.{plus_one}
use painting_cps.Images.Info.{fake_name}
use painting_cps.Images.Packager.{recv_image, checked, recv_image-send_image}
use painting_cps.Images.Child.{mf_copy}
use painting_cps.Storm.Spout.{kept, picture_bytes, keep_picture}

-- `new char[650000]`.
abbrev pub image_room : ℕ
image_room = 650000

-- What a round of `server_transmit` has when a picture was received.
pub record Picture : Type 0 where
  pub name : Bytes
  pub img : Bytes
  pub file_size : ℤ
  pub fake_index : ℕ

-- A round in this mode: the array is filled, and the picture gets the next number for its name.
-- `heap n` is what a new array holds, `stack n` one on the stack, `ret` and `message` are what
-- `mfrecv_blk` gave.
unfoldable pub mf_request : (ℕ → Bytes) → (ℕ → Bytes) → ℤ → Bytes → ℕ → Result Picture
unfolding sprintf fake_name
mf_request stack heap ret message fake_index =
    bind (recv_image stack ret message (heap image_room) image_room) (λ (img, file_size).
      bind (sprintf (replicate 60 0) (fake_name fake_index)) (λ _.
        bind (plus_one fake_index) (λ next. ok (record {
          name = fake_name fake_index;
          img = img;
          file_size = file_size;
          fake_index = next;
        }))))

length-fake_name : (id : ℕ) → id < 2 ^ 31 → length (fake_name id) < 60
unfolding fake_name
length-fake_name id small =
    omega (arith, length-append (print_nat id) (codes ".jpg"), length-print_nat-le id small)

-- The bytes that are kept are the picture at the start of the array.
picture_bytes-file :
    (file rest : Bytes) → picture_bytes (file ++ rest) (pos (length file)) ≡ ok file
unfolding picture_bytes
picture_bytes-file file rest = slice-behind [] file rest 0 (length file) refl refl

module _ (spout_ip name file rest : Bytes) (run : Bool) where
  -- To disk, for a file that could be opened.
  pub keep_picture-disk :
      (kafka : Bool) (fp w : ℕ)
      → 0 < fp
      → keep_picture false kafka run spout_ip name
          (file ++ rest)
          (pos (length file))
          (net (returns fp ∷ returns w ∷ []) [])
        ≡ done kept (net [] (create_file name ∷ store_file name file ∷ []))
  unfolding keep_picture
  keep_picture-disk kafka fp w there =
      let opened : (fp == 0) ≡ false = ground (arith, there) in
      rw (opened, picture_bytes-file file rest) refl

read_whole :
    (stack : ℕ → Bytes) (file : Bytes)
    → length (stack (length file)) ≡ length file
    → overlay (stack (length file)) (take (length file) file) ≡ ok file
read_whole stack file sized = rw (take-all (length file) file (omega arith)) (
    overlay-fits (stack (length file)) file (omega (arith, sized))
    ∙ ap (λ (t : Bytes). ok (file ++ t))
        (drop-all (length file) (stack (length file)) (omega (arith, sized)))
    ∙ ap (λ (t : Bytes). ok t) (append-nil file))

module _ (stack peer heap : ℕ → Bytes) (mfsend : Bytes → ℤ) (file : Bytes)
    (array : length (stack (length file)) ≡ length file)
    (longer : length (stack (length file + 10)) ≡ length file + 10)
    (wide : length (peer image_room) ≡ image_room) (room : length (heap image_room) ≡ image_room)
    (filled : 1 ≤ length file) (fits : length file + 10 ≤ image_room)
    (sends : (m : Bytes) → is_neg (mfsend m) ≡ false) where
  -- The client reads a file of 1 to 649990 bytes and sends one message; from it the server makes a
  -- picture with the next number's name, and what it keeps on disk under that name is the file, if
  -- the calls succeed, the arrays have their sizes and the number is below 2^31 - 1.
  pub mf_request-mf_copy :
      (sent : List Bytes) (spout_ip : Bytes) (kafka run : Bool) (ret id fp w : ℕ)
      → id < 2 ^ 31 - 1
      → 0 < fp
      → (message : Bytes) × (picture : Picture) × (mf_copy stack mfsend
            (some (length file))
            (some file)
            sent
          ≡ done tt (sent ++ message ∷ []))
        × (mf_request peer heap (pos ret) message id ≡ ok picture)
        × (picture.fake_index ≡ id + 1)
        × (keep_picture false kafka run spout_ip picture.name picture.img picture.file_size
              (net (returns fp ∷ returns w ∷ []) [])
            ≡ done kept (net [] (create_file (fake_name id) ∷ store_file (fake_name id) file ∷ [])))
  unfolding mf_copy mf_request checked
  mf_request-mf_copy sent spout_ip kafka run ret id fp w low there =
      let (message, long, went, came) =
        recv_image-send_image stack peer mfsend file (heap image_room) ret image_room longer wide
          filled (omega (arith, fits)) fits (omega (arith, fits, room)) in
      let name = fake_name id in
      let img = file ++ drop (length file) (heap image_room) in
      let short = length-fake_name id (omega (arith, low)) in
      (
        message,
        record { name = name; img = img; file_size = pos (length file); fake_index = id + 1 },
        rw (read_whole stack file array, went, sends message) (rw (sends message) refl),
        rw
            (
              came,
              sprintf-fits (replicate 60 0) name
                  (omega (arith, short, length-replicate {A = ℕ} 60 0)),
            )
            (ground (arith, low)),
        refl,
        keep_picture-disk spout_ip name file (drop (length file) (heap image_room)) run kafka fp w
            there,
      )

-- When the network fails to bring a picture, the round goes on, and keeping the picture on disk is
-- undefined, if the calls of the system succeed.
pub mf_request-lost :
    (stack heap : ℕ → Bytes) (n id fp : ℕ) (message spout_ip : Bytes) (kafka run : Bool)
    → id < 2 ^ 31 - 1
    → 0 < fp
    → (picture : Picture) × (mf_request stack heap (negsuc n) message id ≡ ok picture)
      × (keep_picture false kafka run spout_ip picture.name picture.img picture.file_size
            (net (returns fp ∷ []) [])
          ≡ faults out_of_bounds)
unfolding mf_request keep_picture picture_bytes recv_image
mf_request-lost stack heap n id fp message spout_ip kafka run low there =
    let name = fake_name id in
    let short = length-fake_name id (omega (arith, low)) in
    let opened : (fp == 0) ≡ false = ground (arith, there) in
    (
      record { name = name; img = heap image_room; file_size = negsuc 0; fake_index = id + 1 },
      rw (sprintf-fits (replicate 60 0) name (omega (arith, short, length-replicate {A = ℕ} 60 0)))
          (ground (arith, low)),
      rw opened refl,
    )
