-- ===== src/Tests/Server.antt =====
-- The connection at a concrete input: requests are counted, and answered by their first word.
use apex_db.Prelude.{ℕ, suc, ◌≤◌, ◌≡◌, refl, true, false, List, [], ◌∷◌, ◌++◌, arith, length}
use apex_db.Bytes.{Bytes}
use apex_db.Sharding.{codes}
use apex_db.ServerLoop.{Conn, try_one_request, request_loop, handle_read, read_some, wrote, flush}
use apex_db.ServerLoop.Flush.{unsent}
use apex_db.ServerLoop.Requests.{frames, replies, after_requests, waits, handle_read_lem}
use apex_db.ServerLoop.Waiting.{IsWaiting, request_loop-ends, handle_read-IsWaiting}

abbrev first_word : List Bytes → Bytes
first_word [] = []
first_word (word ∷ _) = word

abbrev count_one : ℕ → List Bytes → ℕ
count_one n cmd = suc n

abbrev answer_word : ℕ → List Bytes → Bytes
answer_word n cmd = first_word cmd

abbrev counting : ℕ → List Bytes → Bytes → ℕ × Bytes
counting n cmd out = (suc n, out ++ first_word cmd)

abbrev fresh : Conn
fresh = record {
  incoming = [];
  outgoing = [];
  want_read = true;
  want_write = false;
  want_close = false;
}

abbrev pings : List (List Bytes)
pings = (codes "ping" ∷ []) ∷ (codes "keys" ∷ []) ∷ []

-- Two requests, and the first two bytes of a third.
abbrev input : Bytes
input = frames pings (7 ∷ 0 ∷ [])

short_waits : waits (7 ∷ 0 ∷ []) ≡ true
unfolding apex_db.Bytes.read_u32
short_waits = refl

handle_read_lem_example :
    (handle_read counting 0 fresh (read_some input) (wrote 10) ≡ (
      after_requests count_one answer_word 0 pings,
      flush
          (record fresh {
            incoming = 7 ∷ 0 ∷ [];
            outgoing = replies count_one answer_word [] 0 pings;
          })
          (wrote 10),
    ))
    × ((handle_read counting 0 fresh (read_some input) (wrote 10)).1.incoming ≡ 7 ∷ 0 ∷ [])
    × ((handle_read counting 0 fresh (read_some input) (wrote 10)).1.outgoing
        ≡ unsent (wrote 10) (replies count_one answer_word [] 0 pings))
handle_read_lem_example =
    handle_read_lem counting count_one answer_word (λ n cmd out. refl) 0 fresh input (wrote 10)
      pings (7 ∷ 0 ∷ []) ((omega arith, omega arith), ((omega arith, omega arith), tt)) refl
      short_waits

input_size : length input ≤ 1000
unfolding apex_db.Protocol.encode_request apex_db.Protocol.request_length
    apex_db.Protocol.encode_args
input_size = omega arith

request_loop-ends_example :
    (try_one_request counting
      (request_loop counting 1000 0 (record fresh { incoming = input })).0
      (request_loop counting 1000 0 (record fresh { incoming = input })).1).2
    ≡ false
request_loop-ends_example =
    request_loop-ends counting 1000 0 (record fresh { incoming = input }) input_size

handle_read-IsWaiting_example :
    IsWaiting (handle_read counting 0 fresh (read_some input) (wrote 10)).1
handle_read-IsWaiting_example =
    handle_read-IsWaiting counting 0 fresh (read_some input) (wrote 10)
      (record { writes = refl; reads = refl }) refl
