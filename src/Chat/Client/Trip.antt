-- ===== src/Chat/Client/Trip.antt =====
-- The way of a message of client.c through the server to every receiver.
use cmpt201_coursework.Prelude.{
  ℕ, suc, ◌+◌, ◌-◌, ◌*◌, ◌/◌, ◌%◌, ◌≡◌, refl, ap, ◌∙◌, false, none, some, [], ◌∷◌, ◌++◌, arith, ltb,
  ◌==◌, length, length-append, take, drop,
}
use mathlib.Core.List.{append_assoc}
use cmpt201_coursework.Prelude.Int.{pos}
use cmpt201_coursework.Text.{before_nul}
use cmpt201_coursework.Chat.{
  max_msg_size, type_regular, newline, Bytes, memchr, Peer, Server, handle_message, handle_regular,
  enqueue_message,
}
use cmpt201_coursework.Chat.Frame.{handle-framed}
use cmpt201_coursework.Chat.Client.{
  random_bytes_len, hex_digit, convert_loop, convert, sender_message, Receiver, receive,
}
use cmpt201_coursework.Chat.Client.Receive.{
  memchr-behind, drop-suc, IsText, message, logged, receive-message,
}

length-convert_loop : (buf : Bytes) → length (convert_loop buf) ≡ 2 * length buf
unfolding convert_loop
length-convert_loop [] = refl
length-convert_loop (b ∷ buf) = omega (arith, length-convert_loop buf)

hex-printable : (d : ℕ) → (hex_digit d == newline) ≡ false
unfolding hex_digit
hex-printable d = ground arith

convert_loop-memchr : (buf : Bytes) → memchr newline (convert_loop buf) ≡ none
unfolding convert_loop memchr
convert_loop-memchr [] = refl
convert_loop-memchr (b ∷ buf) =
    rw (hex-printable (b / 16), hex-printable (b % 16), convert_loop-memchr buf)

hex-nonzero : (d : ℕ) → (hex_digit d == 0) ≡ false
unfolding hex_digit
hex-nonzero d = ground arith

-- The digits have no NUL.
convert_loop-before_nul : (buf : Bytes) → before_nul (convert_loop buf) ≡ convert_loop buf
unfolding convert_loop before_nul
convert_loop-before_nul [] = refl
convert_loop-before_nul (b ∷ buf) =
    rw (hex-nonzero (b / 16), hex-nonzero (b % 16), convert_loop-before_nul buf)

sender-convert :
    (rand_buf : Bytes)
    → length rand_buf ≡ random_bytes_len
    → sender_message rand_buf ≡ some (type_regular ∷ (convert_loop rand_buf ++ (newline ∷ [])))
unfolding sender_message convert
sender-convert rand_buf h =
    let l = length-convert_loop rand_buf in
    let q : (length rand_buf == 0) ≡ false = ground arith in
    let q' : ltb (random_bytes_len * 2 + 1) (length rand_buf * 2 + 1) ≡ false = ground arith in
    let n : ltb max_msg_size (1 + length (convert_loop rand_buf) + 1) ≡ false = ground arith in
    rw (sender_message, convert, q, q', n)

take-suc : (xs ys : Bytes) → take (length xs + 1) (xs ++ (newline ∷ ys)) ≡ xs ++ (newline ∷ [])
take-suc [] ys = refl
take-suc (x ∷ xs) ys =
    let j : suc (length xs) + 1 ≡ suc (length xs + 1) = omega arith in
    rw j (ap (λ l. x ∷ l) (take-suc xs ys))

regular-text :
    (peer : Peer) (text rest : Bytes) (s : Server)
    → IsText text
    → handle_regular peer (type_regular ∷ (text ++ (newline ∷ rest))) (suc (length text) + 1) s
      ≡ record s { queue = s.queue ++ (message peer text ∷ []) }
unfolding handle_regular enqueue_message
regular-text peer text rest s t =
    let j : (suc (length text) + 1) - 1 ≡ length text + 1 = omega arith in
    let n : ltb max_msg_size (suc (length text) + 1 + 6) ≡ false = ground arith in
    let n' : ltb max_msg_size (length (message peer text)) ≡ false =
      ground (arith, length-append text (newline ∷ [])) in
    rw (n, j, take-suc text rest, n')

-- The server queues the broadcast of a text.
handle-text :
    (peer : Peer) (text rest : Bytes) (s : Server)
    → IsText text
    → handle_message peer (type_regular ∷ (text ++ (newline ∷ rest))) s
      ≡ (pos (length text + 2), rest, record s { queue = s.queue ++ (message peer text ∷ []) })
unfolding memchr
handle-text peer text rest s t =
    let m = memchr-behind newline text rest t.0 in
    let m' : memchr newline (type_regular ∷ (text ++ (newline ∷ rest))) ≡ some (suc (length text)) =
      rw m in
    let f = handle-framed peer (suc (length text)) type_regular (text ++ (newline ∷ rest)) s m' in
    let j : suc (length text) + 1 ≡ length text + 2 = omega arith in
    let j' : length text + 2 ≡ suc (length text + 1) = omega arith in
    let d : drop (suc (length text) + 1) (type_regular ∷ (text ++ (newline ∷ rest))) ≡ rest =
      rw (j, j') (drop-suc text rest) in
    let g = regular-text peer text rest s t in f ∙ rw (d, g, j)

-- The ten random bytes of a sender arrive: the sender writes a message; the server, whatever stands
-- behind it in the buffer, queues one broadcast for it; and a receiver that reads the broadcast,
-- whatever stands behind it, logs the address of the sender and the bytes in hexadecimal.
pub message-arrives :
    (rand_buf : Bytes) (peer : Peer) (s : Server) (r : Receiver) (k : ℕ) (rest behind : Bytes)
    → length rand_buf ≡ random_bytes_len
    → (m b : Bytes) × (sender_message rand_buf ≡ some m)
      × (handle_message peer (m ++ rest) s
          ≡ (pos (length m), rest, record s { queue = s.queue ++ (b ∷ []) }))
      × (receive (suc k) (b ++ behind) r
          ≡ receive k behind
              (record r { log_file = r.log_file ++ (logged peer (convert_loop rand_buf) ∷ []) }))
message-arrives rand_buf peer s r k rest behind h =
    let text = convert_loop rand_buf in
    let l = length-convert_loop rand_buf in
    let t : IsText text = (convert_loop-memchr rand_buf, omega arith) in
    let e = append_assoc text (newline ∷ []) rest in
    let n : length text + 2 ≡ length (type_regular ∷ (text ++ (newline ∷ []))) =
      omega (arith, length-append text (newline ∷ [])) in
    (
      type_regular ∷ (text ++ (newline ∷ [])),
      message peer text,
      sender-convert rand_buf h,
      ap (λ z. handle_message peer (type_regular ∷ z) s) e
          ∙ (handle-text peer text rest s t
              ∙ ap (λ z. (pos z, rest, record s { queue = s.queue ++ (message peer text ∷ []) }))
                  n),
      receive-message k peer text behind r t
          ∙ ap (λ z. receive k behind (record r { log_file = r.log_file ++ (logged peer z ∷ []) }))
              (convert_loop-before_nul rand_buf),
    )
