-- ===== src/Chat/Client.antt =====
-- The client of lecture/test4/client.c: the messages of its sender thread, and the
-- loops of its receiver thread, over its reads and over the bytes that are in its buffer.
pub mod Receive
pub mod Part
pub mod Stream
pub mod Trip
use cmpt201_coursework.Prelude.{
  ℕ, zero, suc, ◌+◌, ◌*◌, ◌/◌, ◌%◌, Bool, true, false, not, ◌||◌, Option, none, some, List, [], ◌∷◌,
  ◌++◌, ltb, leb, ◌==◌, if◌then◌else◌, length, get_or, take, drop, Run, ok, out_of_fuel, ◌>>=◌, ◌-◌,
}
use cmpt201_coursework.Text.{before_nul}
use cmpt201_coursework.Chat.{
  max_msg_size, type_regular, type_end_execution, newline, Bytes, memchr, commit_msg,
}

abbrev pub random_bytes_len : ℕ
random_bytes_len = 10

-- A digit of `%02X`.
unfoldable pub hex_digit : ℕ → ℕ
hex_digit d = if ltb d 10 then 48 + d else 55 + d

-- `for (…) sprintf(str + i * 2, "%02X", buf[i])`
unfoldable pub convert_loop : Bytes → Bytes
unfolding hex_digit
convert_loop [] = []
convert_loop (b ∷ buf) = hex_digit (b / 16) ∷ hex_digit (b % 16) ∷ convert_loop buf

-- `none` for -1; `str_size` is the size of the array for the result.
unfoldable pub convert : Bytes → (str_size : ℕ) → Option Bytes
unfolding convert_loop
convert buf str_size =
    if (length buf == 0) || ltb str_size (length buf * 2 + 1) then none else some (convert_loop buf)

-- What the sender writes for the random bytes `rand_buf`; `none` where it writes nothing.
unfoldable pub sender_message : Bytes → Option Bytes
unfolding convert
sender_message rand_buf = elim (convert rand_buf (random_bytes_len * 2 + 1)) [
  | none ↦ none
  | some hex_str ↦
      if ltb max_msg_size (1 + length hex_str + 1)
      then none
      else some (type_regular ∷ (hex_str ++ (newline ∷ [])))
]

-- A line of the log, before it is formatted: the sender's address and its text.
pub record Line : Type 0 where
  pub ip : Bytes
  pub port : Bytes
  pub chat_data : Bytes

-- The log file and the flag that the threads of the client share.
pub record Receiver : Type 0 where
  pub log_file : List Line
  pub keep_running : Bool

abbrev pub received : List Line → Bool → Receiver
received log running = record { log_file = log; keep_running = running }

-- A regular message at `ptr` whose text has `n` bytes; `%s` stops at a NUL in it.
abbrev pub line : Bytes → ℕ → Line
line ptr n = record {
  ip = take 4 (drop 1 ptr);
  port = take 2 (drop 5 ptr);
  chat_data = before_nul (take (if leb max_msg_size n then 1023 else n) (drop 7 ptr));
}

-- The loop `while (data_len >= 1)`, on fuel: the bytes that are left, and the log.
unfoldable pub receive : ℕ → Bytes → Receiver → Run (Bytes × Receiver)
receive zero ptr r = out_of_fuel
receive (suc k) ptr r =
    let type = get_or ptr 0 0 in
    if length ptr == 0
    then ok (ptr, r)
    else if type == type_regular
    then if ltb (length ptr) 7 then ok (ptr, r) else elim (memchr newline (drop 7 ptr)) [
      | none ↦ ok (ptr, r)
      | some i ↦
          receive k (drop (i + 8) ptr) (record r { log_file = r.log_file ++ (line ptr i ∷ []) })
    ]
    else if type == type_end_execution
    then if ltb (length ptr) 2 || not (get_or ptr 1 0 == newline)
      then ok (ptr, r)
      else ok (ptr, record r { keep_running = false })
    else elim (memchr newline (drop 1 ptr)) [
      | none ↦ ok (ptr, r)
      | some i ↦ receive k (drop (i + 2) ptr) r
    ]

-- The loop of `receiver_thread`: the bytes that are left in its buffer, and the log. Its reads give at
-- most so many bytes of the stream as the list says, and no more than fit behind the bytes in the buffer;
-- none are the end of the stream or an error.
unfoldable pub receiver_thread :
    List ℕ → (stream buffer : Bytes) → Receiver → Run (Bytes × Receiver)
receiver_thread [] stream buffer r = ok (buffer, r)
receiver_thread (n ∷ reads) stream buffer r =
    let got = take n (take (max_msg_size - length buffer) stream) in
    let ptr = buffer ++ got in
    if not r.keep_running || (length got == 0)
    then ok (buffer, r)
    else receive (suc (length ptr)) ptr r
      >>= (λ p. receiver_thread reads (drop (length got) stream) p.0 p.1)
