-- ===== src/Client/Tests.antt =====
-- A ping with three bytes behind it, sent and received in parts.
use openrsp.Base.{ℕ, ◌≡◌, refl, true, false, List, [], ◌∷◌, ◌++◌, some, arith}
use openrsp.Client.{
  Io, moved, interrupted, timed_out, broken, ok, error, timeout, Moved, transfer_exact, encode,
  Sent, write_all, send, receive,
}
use openrsp.Client.Transfer.{Finished, transfer_exact_lem}
use openrsp.Client.Messages.{header_of, receive-send}

abbrev parts : List Io
parts = moved 10 ∷ interrupted ∷ moved 20 ∷ moved 2 ∷ moved 1 ∷ []

abbrev many : List Io
many =
    moved 7
    ∷ moved 7
    ∷ moved 7
    ∷ moved 1
    ∷ moved 1
    ∷ moved 1
    ∷ moved 1
    ∷ moved 1
    ∷ moved 1
    ∷ moved 1
    ∷ moved 1
    ∷ moved 1
    ∷ moved 1
    ∷ moved 1
    ∷ moved 1
    ∷ moved 1
    ∷ moved 1
    ∷ moved 1
    ∷ interrupted
    ∷ moved 1
    ∷ []

abbrev payload : List ℕ
payload = 1 ∷ 2 ∷ 3 ∷ []

abbrev written : Sent
written = record { code = ok; wire = encode (header_of 5 77 payload) ++ payload; left = [] }

silent :
    transfer_exact false (timed_out ∷ []) 16 0
    ≡ some (record { code = timeout; count = 0; left = [] })
unfolding transfer_exact
silent = refl

cut_short :
    transfer_exact false (moved 3 ∷ timed_out ∷ []) 16 0
    ≡ some (record { code = error; count = 3; left = [] })
unfolding transfer_exact
cut_short = refl

transfer_exact_lem_example :
    (m : Moved) × (transfer_exact true (moved 2 ∷ interrupted ∷ moved 3 ∷ broken ∷ []) 3 0 ≡ some m)
    × Finished true 3 0 m
transfer_exact_lem_example =
    transfer_exact_lem true (moved 2 ∷ interrupted ∷ moved 3 ∷ broken ∷ []) 3 (omega arith)

receive-send_example :
    (left : List Io) × (receive many (written.wire ++ (9 ∷ 9 ∷ [])) 64
      ≡ some (record {
        code = ok;
        header = header_of 5 77 payload;
        payload = payload;
        wire = 9 ∷ 9 ∷ [];
        left = left;
      }))
unfolding send write_all transfer_exact encode
receive-send_example =
    receive-send parts many 5 77 payload (9 ∷ 9 ∷ []) 64 written refl refl (omega arith)
      (omega arith) (omega arith) (omega arith)
