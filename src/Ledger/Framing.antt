-- ===== src/Ledger/Framing.antt =====
-- src/plugins/ledger.rs, `TransportTcp::send_cmd`: commands and answers over a socket, each with its length in
-- front. The socket holds what has been sent and what has come; it takes as many bytes of a write as
-- it likes, and a read of more than there is fails. `from_answer` is `ledger_apdu`'s, which panics on some.
use sub_script.Prelude.{
  ℕ, ◌+◌, ◌*◌, ◌/◌, ◌%◌, ◌^◌, ◌≤◌, ◌<◌, ◌≡◌, refl, sym, ap, ◌∙◌, false, Option, none, some, List,
  [], ◌∷◌, ◌++◌, length, take, drop, length-append, ltb, ◌==◌, if◌then◌else◌, Result, ok, err,
  or_fail, packet_too_large, panicked, conn_closed, arith, append-nil,
}
use sub_script.Ledger.Signing.{ApduCommand, ApduAnswer}

abbrev pub max_packet_len : ℕ
max_packet_len = 10000000

pub record Socket : Type 0 where
  pub sent : List ℕ
  pub incoming : List ℕ

-- `u32::to_be_bytes` and `u32::from_be_bytes`
unfoldable pub to_be_bytes : ℕ → List ℕ
to_be_bytes x = (x / 16777216) % 256 ∷ (x / 65536) % 256 ∷ (x / 256) % 256 ∷ x % 256 ∷ []

unfoldable pub from_be_bytes : List ℕ → ℕ
from_be_bytes (a ∷ b ∷ c ∷ d ∷ rest) = 16777216 * a + 65536 * b + 256 * c + d
from_be_bytes _ = 0

-- the bytes of a command: `as u32` of the length of the packet, `as u8` of that of the data
unfoldable pub frame : ApduCommand → List ℕ
unfolding to_be_bytes
frame c =
    to_be_bytes ((5 + length c.payload) % 2 ^ 32)
    ++ (c.cla ∷ c.ins ∷ c.p1 ∷ c.p2 ∷ length c.payload % 256 ∷ c.payload)

unfoldable pub read_exact : ℕ → Socket → Socket × Result (List ℕ)
read_exact n s =
    if ltb (length s.incoming) n
    then (s, err conn_closed)
    else (record s { incoming = drop n s.incoming }, ok (take n s.incoming))

-- what a length word asks for: the data and two bytes of code; the sum wraps
unfoldable pub packet_len : List ℕ → ℕ
unfolding from_be_bytes
packet_len header = (from_be_bytes header + 2) % 2 ^ 32

module _ (accepts : List ℕ → ℕ) (from_answer : List ℕ → Option ApduAnswer) where
  abbrev pub as_answer : Socket × Result (List ℕ) → Socket × Result ApduAnswer
  as_answer (s, err e) = (s, err e)
  as_answer (s, ok bs) = (s, or_fail (from_answer bs) panicked)

  unfoldable pub read_packet : Socket × Result (List ℕ) → Socket × Result ApduAnswer
  unfolding packet_len read_exact
  read_packet (s, err e) = (s, err e)
  read_packet (s, ok header) =
      if ltb max_packet_len (packet_len header)
      then (s, err packet_too_large)
      else as_answer (read_exact (packet_len header) s)

  unfoldable pub send_cmd : ApduCommand → Socket → Socket × Result ApduAnswer
  unfolding frame read_packet read_exact
  send_cmd c s =
      let buf = frame c in
      read_packet (read_exact 4 (record s { sent = s.sent ++ take (accepts buf) buf }))

-- A device's reading of a frame: the length word, and the command that fills it.
unfoldable pub parse_frame : List ℕ → Option ApduCommand
unfolding from_be_bytes
parse_frame (a ∷ b ∷ c ∷ d ∷ cla ∷ ins ∷ p1 ∷ p2 ∷ len ∷ rest) =
    if from_be_bytes (a ∷ b ∷ c ∷ d ∷ []) == 5 + length rest
    then (if len == length rest
        then some (record { cla = cla; ins = ins; p1 = p1; p2 = p2; payload = rest })
        else none)
    else none
parse_frame _ = none

be_bytes : (n : ℕ) → n < 2 ^ 32 → from_be_bytes (to_be_bytes n) ≡ n
unfolding from_be_bytes to_be_bytes
be_bytes n h = omega arith

take-length : (xs ys : List ℕ) → take (length xs) (xs ++ ys) ≡ xs
take-length [] ys = refl
take-length (x ∷ xs) ys = ap (λ zs. x ∷ zs) (take-length xs ys)

drop-length : (xs ys : List ℕ) → drop (length xs) (xs ++ ys) ≡ ys
drop-length [] ys = refl
drop-length (x ∷ xs) ys = drop-length xs ys

parse_frame-frame : (c : ApduCommand) → length c.payload < 256 → parse_frame (frame c) ≡ some c
unfolding parse_frame frame to_be_bytes
parse_frame-frame c small = ground (arith, small)

read_exact-append :
    (xs ys : List ℕ) (s : Socket)
    → s.incoming ≡ xs ++ ys
    → read_exact (length xs) s ≡ (record s { incoming = ys }, ok xs)
unfolding read_exact
read_exact-append xs ys s h =
    let enough : ltb (length s.incoming) (length xs) ≡ false =
      ground (arith, ap length h, length-append xs ys) in
    rw (enough, read_exact) (rw h (rw (take-length xs ys, drop-length xs ys) refl))

packet_len-to_be_bytes : (n : ℕ) → n + 2 < 2 ^ 32 → packet_len (to_be_bytes n) ≡ n + 2
unfolding packet_len
packet_len-to_be_bytes n h = ap (λ k. (k + 2) % 2 ^ 32) (be_bytes n (omega arith)) ∙ omega arith

read_packet-append :
    (accepts : List ℕ → ℕ) (from_answer : List ℕ → Option ApduAnswer) (s : Socket)
    (header body rest : List ℕ) (a : ApduAnswer)
    → packet_len header ≡ length body
    → length body ≤ max_packet_len
    → s.incoming ≡ body ++ rest
    → from_answer body ≡ some a
    → read_packet accepts from_answer (s, ok header) ≡ (record s { incoming = rest }, ok a)
unfolding read_packet
read_packet-append accepts from_answer s header body rest a asks fits come parsed =
    let short : ltb max_packet_len (length body) ≡ false = ground (arith, fits) in
    let answer = read_exact-append body rest s come in
    rw (asks, read_packet) (rw short (rw answer (rw parsed refl)))

-- A command whose data is shorter than 256 bytes, on a socket that takes the whole of a write and
-- on which a length word and an answer of that length, its code included, have come, at most ten million
-- bytes in all: the device reads back the command from what is sent, the answer is read, and what comes
-- after it is left.
pub send_cmd-parse_frame :
    (accepts : List ℕ → ℕ) (from_answer : List ℕ → Option ApduAnswer) (c : ApduCommand) (s : Socket)
    (n : ℕ) (body rest : List ℕ) (a : ApduAnswer)
    → length c.payload < 256
    → ((bs : List ℕ) → accepts bs ≡ length bs)
    → length body ≡ n + 2
    → n + 2 ≤ max_packet_len
    → s.incoming ≡ to_be_bytes n ++ (body ++ rest)
    → from_answer body ≡ some a
    → (bs : List ℕ) × (send_cmd accepts from_answer c s
        ≡ (record { sent = s.sent ++ bs; incoming = rest }, ok a))
      × (parse_frame bs ≡ some c)
unfolding send_cmd
send_cmd-parse_frame accepts from_answer c s n body rest a small whole len fits come parsed =
    let buf = frame c in
    let all : take (accepts buf) buf ≡ buf =
      rw (whole buf) (ap (take (length buf)) (sym (append-nil buf)) ∙ take-length buf []) in
    let s1 : Socket = record s { sent = s.sent ++ buf } in
    let header = read_exact-append (to_be_bytes n) (body ++ rest) s1 come in
    let asks : packet_len (to_be_bytes n) ≡ length body =
      packet_len-to_be_bytes n (omega arith) ∙ sym len in
    let body_read =
      read_packet-append accepts from_answer (record s1 { incoming = body ++ rest }) (to_be_bytes n)
        body rest a asks (omega (arith, len, fits)) refl parsed in
    (
      buf,
      ap (λ b. read_packet accepts from_answer (read_exact 4 (record s { sent = s.sent ++ b }))) all
          ∙ (ap (read_packet accepts from_answer) header ∙ body_read),
      parse_frame-frame c small,
    )
