-- ===== src/Client/Messages.antt =====
-- Messages of src/client_posix.c: what is sent is what is received.
use openrsp.Base.{
  ℕ, ◌+◌, ◌≤◌, ◌<◌, ◌^◌, ◌≡◌, ◌∙◌, refl, ap, List, [], ◌∷◌, ◌++◌, Option, some, none, arith, length,
  take, drop, append_assoc, true, false,
}
use openrsp.Client.{
  Io, ok, Moved, Header, header_bytes, protocol_magic, protocol_version, bytes_of, value_of, encode,
  decode, transfer_exact, Sent, sent_of, and_payload, after_header, write_all, send, Got, got_of,
  with_header, is_foreign, read_all, receive,
}
use openrsp.Client.Transfer.{
  answers, Finished, Steady, transfer_exact-Finished, transfer_exact-Steady,
}

take-append_self {ℓ} : {A : Type ℓ} (xs ys : List A) → take (length xs) (xs ++ ys) ≡ xs
take-append_self [] ys = refl
take-append_self (x ∷ xs) ys = ap (λ l. x ∷ l) (take-append_self xs ys)

drop-append_self {ℓ} : {A : Type ℓ} (xs ys : List A) → drop (length xs) (xs ++ ys) ≡ ys
drop-append_self [] ys = refl
drop-append_self (x ∷ xs) ys = drop-append_self xs ys

take-length {ℓ} : {A : Type ℓ} (xs : List A) → take (length xs) xs ≡ xs
take-length [] = refl
take-length (x ∷ xs) = ap (λ l. x ∷ l) (take-length xs)

-- The fields have the widths of openrsp_message_header.
pub record Fits (h : Header) : Type 0 where
  pub magic : h.magic < 2 ^ 32
  pub version : h.version < 2 ^ 16
  pub kind : h.kind < 2 ^ 16
  pub sequence : h.sequence < 2 ^ 32
  pub payload_bytes : h.payload_bytes < 2 ^ 32

length-encode : (h : Header) → length (encode h) ≡ header_bytes
unfolding encode
length-encode h = refl

value_of_u16 : (x : ℕ) → x < 2 ^ 16 → value_of (bytes_of 2 x) ≡ x
value_of_u16 x h = omega arith

value_of_u32 : (x : ℕ) → x < 2 ^ 32 → value_of (bytes_of 4 x) ≡ x
value_of_u32 x h = omega arith

pub decode-encode : (h : Header) → Fits h → decode (encode h) ≡ h
unfolding encode decode
decode-encode h f = ground (
  arith,
  value_of_u32 h.magic,
  value_of_u16 h.version,
  value_of_u16 h.kind,
  value_of_u32 h.sequence,
  value_of_u32 h.payload_bytes,
)

-- The header of a command.
abbrev pub header_of : ℕ → ℕ → List ℕ → Header
header_of command sequence payload = record {
  magic = protocol_magic;
  version = protocol_version;
  kind = command;
  sequence = sequence;
  payload_bytes = length payload;
}

sent_of_ok :
    (buffer : List ℕ) (o : Option Moved) (s : Sent)
    → ((m : Moved) → o ≡ some m → Finished true (length buffer) 0 m)
    → sent_of buffer o ≡ some s
    → s.code ≡ ok
    → s.wire ≡ buffer
sent_of_ok buffer none s f e c = cc
sent_of_ok buffer (some m) s f e c =
    (let whole : m.count ≡ length buffer = ground (arith, (f m refl).complete) in
      ground (arith, take-length buffer, ap (λ n. take n buffer) whole))

write_all_ok :
    (script : List Io) (buffer : List ℕ) (s : Sent)
    → write_all script buffer ≡ some s
    → s.code ≡ ok
    → s.wire ≡ buffer
unfolding write_all
write_all_ok script buffer s =
    sent_of_ok buffer (transfer_exact true script (length buffer) 0) s
      (transfer_exact-Finished true script (length buffer) 0)

and_payload_ok :
    (h : Sent) (payload : List ℕ) (o : Option Sent) (s : Sent)
    → ((p : Sent) → o ≡ some p → p.code ≡ ok → p.wire ≡ payload)
    → and_payload h o ≡ some s
    → s.code ≡ ok
    → s.wire ≡ h.wire ++ payload
and_payload_ok h payload none s f e c = cc
and_payload_ok h payload (some p) s f e c = ground (arith, f p refl)

after_header_ok :
    (header payload : List ℕ) (o : Option Sent) (s : Sent)
    → ((h : Sent) → o ≡ some h → h.code ≡ ok → h.wire ≡ header)
    → after_header payload o ≡ some s
    → s.code ≡ ok
    → s.wire ≡ header ++ payload
after_header_ok header payload none s f e c = cc
after_header_ok header payload (some h) s f e c = ground (
  arith,
  f h refl,
  and_payload_ok h payload (write_all h.left payload) s (write_all_ok h.left payload),
)

-- A send that succeeds has written the header and the payload, whole and in this order, in however
-- many parts.
pub send_ok :
    (script : List Io) (command sequence : ℕ) (payload : List ℕ) (s : Sent)
    → send script command sequence payload ≡ some s
    → s.code ≡ ok
    → s.wire ≡ encode (header_of command sequence payload) ++ payload
unfolding send
send_ok script command sequence payload s =
    (let header = encode (header_of command sequence payload) in
      after_header_ok header payload (write_all script header) s (write_all_ok script header))

-- A read of what is in the socket, over a steady one.
read_all-Steady :
    (script : List Io) (bytes rest : List ℕ) (n spare : ℕ)
    → length bytes ≡ n
    → Steady script
    → n + spare ≤ answers script
    → (left : List Io) × (read_all script (bytes ++ rest) n
        ≡ some (record { code = ok; buffer = bytes; wire = rest; left = left }))
      × Steady left
      × (spare ≤ answers left)
unfolding read_all
read_all-Steady script bytes rest n spare e s h =
    (let t = transfer_exact-Steady false script n 0 spare s h in
      (
        t.0,
        ap (got_of (bytes ++ rest)) t.1
            ∙ ground (
              arith,
              take-append_self bytes rest,
              drop-append_self bytes rest,
              ap (λ k. take k (bytes ++ rest)) e,
              ap (λ k. drop k (bytes ++ rest)) e,
            ),
        t.2,
        t.3,
      ))

accepted :
    (capacity : ℕ) (h : Header) (payload rest : List ℕ) (left : List Io) (o : Option Got) (r : Got)
    → is_foreign h capacity ≡ false
    → read_all left (payload ++ rest) h.payload_bytes ≡ some r
    → r.code ≡ ok
    → decode (encode h) ≡ h
    → o ≡ some (record { code = ok; buffer = encode h; wire = payload ++ rest; left = left })
    → with_header capacity o
      ≡ some (record { code = ok; header = h; payload = r.buffer; wire = r.wire; left = r.left })
accepted capacity h payload rest left o r known read done same e =
    rw e (rw same (rw known (rw read (rw done))))

-- What is in the socket behind a message stays there.
pub receive-message :
    (script : List Io) (h : Header) (payload rest : List ℕ) (capacity : ℕ)
    → Fits h
    → is_foreign h capacity ≡ false
    → length payload ≡ h.payload_bytes
    → Steady script
    → header_bytes + h.payload_bytes ≤ answers script
    → (left : List Io) × (receive script (encode h ++ (payload ++ rest)) capacity
        ≡ some (record { code = ok; header = h; payload = payload; wire = rest; left = left }))
unfolding receive
receive-message script h payload rest capacity f known size s enough =
    (let first =
        read_all-Steady script (encode h) (payload ++ rest) header_bytes h.payload_bytes
          (length-encode h) s enough in
      let second =
        read_all-Steady first.0 payload rest h.payload_bytes 0 size first.2
          (omega (arith, first.3)) in
      (
        second.0,
        accepted capacity h payload rest first.0
            (read_all script (encode h ++ (payload ++ rest)) header_bytes)
            (record { code = ok; buffer = payload; wire = rest; left = second.0 }) known second.1
            refl (decode-encode h f) first.1,
      ))

-- A message that was sent with success, through any parts that the socket made of it, is received
-- whole by a reader whose socket keeps moving and whose buffer is large enough: the command, the
-- sequence number and the payload are the sender's, and the bytes behind the message stay unread.
pub receive-send :
    (writes reads : List Io) (command sequence : ℕ) (payload rest : List ℕ) (capacity : ℕ)
    (s : Sent)
    → send writes command sequence payload ≡ some s
    → s.code ≡ ok
    → Fits (header_of command sequence payload)
    → length payload ≤ capacity
    → Steady reads
    → header_bytes + length payload ≤ answers reads
    → (left : List Io) × (receive reads (s.wire ++ rest) capacity
        ≡ some (record {
          code = ok;
          header = header_of command sequence payload;
          payload = payload;
          wire = rest;
          left = left;
        }))
receive-send writes reads command sequence payload rest capacity s sent done f room steady enough =
    (let h = header_of command sequence payload in
      let whole = send_ok writes command sequence payload s sent done in
      let got = receive-message reads h payload rest capacity f (ground arith) refl steady enough in
      (
        got.0,
        ap (λ w. receive reads w capacity)
              (ap (λ w. w ++ rest) whole ∙ append_assoc (encode h) payload rest)
            ∙ got.1,
      ))
