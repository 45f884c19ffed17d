-- ===== src/Examples/Copies.antt =====
-- Copies of a file on their way.
use painting_cps.Prelude.{
  ℕ, ◌≡◌, refl, ℤ, pos, negsuc, true, false, [], ◌∷◌, ◌++◌, some, arith, replicate, length,
  length-replicate,
}
use painting_cps.Exec.{ok, done, faults, out_of_bounds}
use painting_cps.CText.{Bytes, codes}
use painting_cps.Calls.{write_to, create_file, store_file, net, returns}
use painting_cps.Images.Info.{fake_name}
use painting_cps.Images.Child.{transmit_child, mf_copy}
use painting_cps.Images.Child.Stored.{
  copies_replies, copies_calls, last_id, AllStored, transmit_child-stored,
}
use painting_cps.Images.Packed.{Picture, mf_request, mf_request-mf_copy, mf_request-lost}
use painting_cps.Images.Transmit.{ok_text, server_transmit}
use painting_cps.Images.Transmit.Copies.{SentPicture, transmit_at, session_replies, session_calls}
use painting_cps.Images.Transmit.Loop.{send_tcp-AllFit}
use painting_cps.Images.Tcp.{send_tcp}
use painting_cps.Images.Transmit.Session.{counted_by, server_transmit-session}
use painting_cps.Metrics.{Metrics}
use painting_cps.Storm.Spout.{keep_picture, kept}

abbrev zeros : ℕ → Bytes
zeros n = replicate n 0

pub length-zeros : (n : ℕ) → length (zeros n) ≡ n
length-zeros n = length-replicate n 0

abbrev file : Bytes
file = 1 ∷ 2 ∷ 3 ∷ []

abbrev name : Bytes
name = codes "pics/a.jpg"

transmit_child-stored_example :
    (transmit_child zeros (pos 2) name (pos 4) 0 (net (copies_replies 1 file 2) [])
      ≡ done (last_id 2 2 0) (net [] (copies_calls 2 name 4 file 2 0)))
    × AllStored zeros 2 name file 2 0
transmit_child-stored_example =
    transmit_child-stored zeros zeros 2 name file 4 1 (length-zeros 100) refl
      (ground arith, omega arith, ground arith) (omega arith) (omega arith) (omega arith) 0
      (omega arith)

abbrev mfsend : Bytes → ℤ
mfsend message = pos (length message)

mf_request-mf_copy_example :
    (message : Bytes) × (picture : Picture) × (mf_copy zeros mfsend (some 3) (some file) []
      ≡ done tt ([] ++ message ∷ []))
    × (mf_request zeros zeros (pos 13) message 1 ≡ ok picture)
    × (picture.fake_index ≡ 2)
    × (keep_picture false false true [] picture.name picture.img picture.file_size
          (net (returns 1 ∷ returns 3 ∷ []) [])
        ≡ done kept (net [] (create_file (fake_name 1) ∷ store_file (fake_name 1) file ∷ [])))
mf_request-mf_copy_example =
    mf_request-mf_copy zeros zeros zeros mfsend file refl refl (length-zeros 650000)
      (length-zeros 650000) (omega arith) (omega arith) (λ m. refl) [] [] false true 13 1 1 3
      (omega arith) (omega arith)

mf_request-lost_example :
    (picture : Picture) × (mf_request zeros zeros (negsuc 0) [] 1 ≡ ok picture)
    × (keep_picture false false true [] picture.name picture.img picture.file_size
          (net (returns 1 ∷ []) [])
        ≡ faults out_of_bounds)
mf_request-lost_example =
    mf_request-lost zeros zeros 0 1 1 [] [] false true (omega arith) (omega arith)

-- One picture in the client's blocks, and one that the stream cut.
abbrev whole : SentPicture
whole = record { name = name; file = file; parts = send_tcp file }

abbrev in_parts : SentPicture
in_parts = record {
  name = codes "pics/b.jpg";
  file = 7 ∷ 8 ∷ 9 ∷ [];
  parts = (7 ∷ []) ∷ (8 ∷ 9 ∷ []) ∷ [];
}

abbrev metrics : Metrics
metrics = record { request_submitted = 5; request_finished = 4 }

server_transmit-session_example :
    server_transmit false false true [] zeros (pos 4) (
      transmit_at metrics [] false 0
        (net (returns 3 ∷ session_replies 1 (whole ∷ in_parts ∷ [])) []))
    ≡ done tt (
        transmit_at
          (counted_by 2 metrics)
          (name ∷ codes "pics/b.jpg" ∷ [])
          true
          3
          (net [] (write_to (pos 4) ok_text ∷ session_calls (pos 4) (whole ∷ in_parts ∷ []))))
server_transmit-session_example =
    server_transmit-session zeros false true [] (pos 4) 1 (omega arith) whole (in_parts ∷ [])
      metrics 0
      (
        (ground arith, omega arith, ground arith),
        omega arith,
        omega arith,
        refl,
        (send_tcp-AllFit file).0,
        (send_tcp-AllFit file).1,
        (
          (ground arith, omega arith, ground arith),
          omega arith,
          omega arith,
          refl,
          refl,
          (omega arith, omega arith, (omega arith, omega arith, tt)),
          tt,
        ),
      )
      (omega arith)
