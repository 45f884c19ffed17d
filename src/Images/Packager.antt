-- ===== src/Images/Packager.antt =====
-- The class `MFPackager` of server/MFPackager.cpp: a picture in one message. `mfsend` and
-- `mfrecv_blk` are parameters: the value the call returns, and the bytes it puts into the buffer.
use painting_cps.Prelude.{
  ℕ, ◌+◌, ◌-◌, ◌^◌, ◌≤◌, ◌<◌, ◌≡◌, ◌≢◌, refl, ℤ, pos, negsuc, minus_one, beq_ℤ, is_neg, [], ◌∷◌,
  ◌++◌, ◌||◌, Option, none, some, ◌==◌, if◌then◌else◌, length, take, take-all, drop, arith,
  length-append, length-take, length-drop, sym, ◌∙◌, append_assoc, append-nil, ap,
}
use painting_cps.Exec.{Result, ok, fault, bind, unterminated, out_of_bounds}
use painting_cps.CText.{Bytes, print_nat, sprintf, write_at, slice, to_int, overlay}
use painting_cps.CText.Decimal.{to_int-print_nat, print_nat-AllDigits, print_nat-ne-nil, AllDigits}
use painting_cps.CText.Copies.{
  sprintf-fits, write_at-end, write_at-behind, slice-behind, overlay-fits,
}
use painting_cps.Images.Blocks.{take-drop_append}
use painting_cps.MsgDistributor.Frames.Laws.{length-print_nat-le_nine}

-- The text of a token up to a delimiter of `" ,"` or a NUL.
unfoldable pub field_from : Bytes → Bytes → Result (Option Bytes)
field_from text [] = fault unterminated
field_from text (c ∷ s) =
    if c == 0 || c == b' ' || c == b',' then ok (some text) else field_from (text ++ c ∷ []) s

-- `strtok(tmp, " ,")`.
unfoldable pub first_field : Bytes → Result (Option Bytes)
first_field [] = fault unterminated
first_field (c ∷ s) =
    let later = first_field s in
    if c == 0 then ok none else if c == b' ' || c == b',' then later else field_from [] (c ∷ s)

-- `sendImage` up to the call of `mfsend`: the message for an image, built in `tmp`.
unfoldable pub image_message : Bytes → Bytes → Result Bytes
image_message tmp buf =
    bind (sprintf tmp (print_nat (length buf) ++ b',' ∷ [])) (λ headed. write_at headed 10 buf)

-- What `sendImage`, `sendResult` and `recvResult` return for the value of their call.
unfoldable pub checked : ℤ → ℤ
checked ret = if is_neg ret then minus_one else ret

-- `sendImage`: the message that is sent, and the value returned.
unfoldable pub send_image : (ℕ → Bytes) → (Bytes → ℤ) → Bytes → Result (Bytes × ℤ)
unfolding image_message checked
send_image stack mfsend buf =
    bind (image_message (stack (length buf + 10)) buf) (λ tmp. ok (tmp, checked (mfsend tmp)))

-- The constructor, for the value of `mfopen`: the GUIDs, or `exit(1)` as none.
unfoldable pub open_packager : ℤ → ℤ → ℤ → Option (ℤ × ℤ)
open_packager ret src_guid dst_guid = if beq_ℤ ret (pos 0) then some (src_guid, dst_guid) else none

-- `sendResult`: the bytes that are sent, and the value returned.
unfoldable pub send_result : (Bytes → ℤ) → Bytes → Bytes × ℤ
unfolding checked
send_result mfsend buf = (buf, checked (mfsend buf))

-- `recvResult`: the array `buf` afterwards, and the value returned, for a message and its `ret`.
unfoldable pub recv_result : ℤ → Bytes → Bytes → Result (Bytes × ℤ)
unfolding checked
recv_result ret message buf =
    bind (if is_neg ret then ok buf else write_at buf 0 message)
      (λ filled. ok (filled, checked ret))

-- `memcpy(buf, tmp + 10, img_size)`, where a negative size is a huge one.
unfoldable pub copy_image : Bytes → Bytes → ℤ → Result Bytes
copy_image buf tmp (pos img_size) = bind (slice tmp 10 img_size) (write_at buf 0)
copy_image buf tmp (negsuc n) = fault out_of_bounds

-- `recvImage(buf, buf_size)`: the array `buf` afterwards, and the value returned. `mfrecv_blk` returned
-- `ret` and puts no more than `buf_size` bytes of the message into `tmp`, an array of `buf_size` bytes.
unfoldable pub recv_image : (ℕ → Bytes) → ℤ → Bytes → Bytes → ℕ → Result (Bytes × ℤ)
unfolding copy_image
recv_image stack ret message buf buf_size =
    if is_neg ret
    then ok (buf, minus_one)
    else bind (overlay (stack buf_size) (take buf_size message)) (λ tmp.
      bind (first_field tmp) (λ token.
        bind (to_int token)
          (λ img_size. bind (copy_image buf tmp img_size) (λ copied. ok (copied, img_size)))))

field_from-digits :
    (w s text : Bytes) → AllDigits w → field_from text (w ++ b',' ∷ s) ≡ ok (some (text ++ w))
unfolding field_from
field_from-digits [] s text h = ground (arith, append-nil text)
field_from-digits (c ∷ w) s text (hc, hw) =
    ground (arith, field_from-digits w s (text ++ c ∷ []) hw, append_assoc text (c ∷ []) w)

first_field-digits :
    (w s : Bytes) → w ≢ [] → AllDigits w → first_field (w ++ b',' ∷ s) ≡ ok (some w)
unfolding first_field
first_field-digits [] s ne h = absurd (ne refl)
first_field-digits (c ∷ w) s ne (hc, hw) = ground (arith, field_from-digits (c ∷ w) s [] (hc, hw))

-- The header fills the ten bytes in front of the image.
headed-fits :
    (tmp buf w : Bytes)
    → length tmp ≡ length buf + 10
    → 1 ≤ length buf
    → length w ≤ 9
    → let head = (w ++ b',' ∷ []) ++ take (9 - length w) (0 ∷ drop (length w + 2) tmp) in
      (bind (sprintf tmp (w ++ b',' ∷ [])) (λ headed. write_at headed 10 buf) ≡ ok (head ++ buf))
      × (length head ≡ 10)
headed-fits tmp buf w sized some_bytes short =
    let k = 9 - length w in
    let s = 0 ∷ drop (length w + 2) tmp in
    let text = w ++ b',' ∷ [] in
    let comma = length-append w (b',' ∷ []) in
    let long : length s ≡ length buf + 9 - length w =
      omega (arith, sized, some_bytes, short, length-drop (length w + 2) tmp) in
    let ten : length (text ++ take k s) ≡ 10 =
      omega
        (arith, comma, length-append text (take k s), length-take k s, long, short, some_bytes) in
    let printed : sprintf tmp text ≡ ok (text ++ s) =
      sprintf-fits tmp text (omega (arith, comma, sized, short, some_bytes))
      ∙ ap (λ (m : ℕ). ok (text ++ 0 ∷ drop m tmp)) (omega (arith, comma)) in
    let whole : text ++ s ≡ (text ++ take k s) ++ drop k s =
      ap (λ (b : Bytes). text ++ b) (sym (take-drop_append k s))
      ∙ sym (append_assoc text (take k s) (drop k s)) in
    (
      rw (printed, whole)
          (write_at-end (text ++ take k s) (drop k s) buf 10 (sym ten)
            (omega (arith, long, short, length-drop k s))),
      ten,
    )

-- For an image of 1 to 10^9 - 1 bytes that fits the receiver's buffer and leaves ten bytes of its size,
-- recvImage puts into its buffer what sendImage was given and returns its size.
pub recv_image-send_image :
    (stack peer : ℕ → Bytes) (mfsend : Bytes → ℤ) (buf into : Bytes) (ret buf_size : ℕ)
    → length (stack (length buf + 10)) ≡ length buf + 10
    → length (peer buf_size) ≡ buf_size
    → 1 ≤ length buf
    → length buf < 10 ^ 9
    → length buf + 10 ≤ buf_size
    → length buf ≤ length into
    → (message : Bytes) × (length message ≡ length buf + 10)
      × (send_image stack mfsend buf ≡ ok (message, checked (mfsend message)))
      × (recv_image peer (pos ret) message into buf_size
          ≡ ok (buf ++ drop (length buf) into, pos (length buf)))
unfolding send_image recv_image copy_image image_message
recv_image-send_image stack peer mfsend buf into ret buf_size sized wide some_bytes small whole
      room =
    let n = length buf in
    let w = print_nat n in
    let tmp = stack (n + 10) in
    let x = take (9 - length w) (0 ∷ drop (length w + 2) tmp) in
    let head = (w ++ b',' ∷ []) ++ x in
    let (built, ten) = headed-fits tmp buf w sized some_bytes (length-print_nat-le_nine n small) in
    let long : length (head ++ buf) ≡ n + 10 = omega (arith, ten, length-append head buf) in
    let tail = drop (length (head ++ buf)) (peer buf_size) in
    let found : first_field (head ++ (buf ++ tail)) ≡ ok (some w) =
      rw
        (
          append_assoc (w ++ b',' ∷ []) x (buf ++ tail),
          append_assoc w (b',' ∷ []) (x ++ (buf ++ tail)),
        )
        (first_field-digits w (x ++ (buf ++ tail)) (print_nat-ne-nil n) (print_nat-AllDigits n)) in
    let cut = slice-behind head buf tail 10 n (sym ten) refl in
    let number = to_int-print_nat n (omega (arith, small)) in
    (
      head ++ buf,
      long,
      rw built refl,
      rw
          (
            take-all buf_size (head ++ buf) (omega (arith, long, whole)),
            overlay-fits (peer buf_size) (head ++ buf) (omega (arith, long, whole, wide)),
            append_assoc head buf tail,
          )
          (ground (arith, found, number, cut, write_at-behind [] into buf room)),
    )
