-- ===== src/Writer/Tests.antt =====
-- The writer on concrete responses, and its theorems at them.
use ehttpd.Prelude.{◌≡◌, refl, true, false, some, List, [], ◌∷◌, ◌++◌, map, arith}
use ehttpd.Socket.{eagain, count, failed, Event, Answer, send, on_sent}
use ehttpd.Socket.Interrupts.{interrupts}
use ehttpd.Writer.{
  Chunk, memory, file, Turn, keep_alive, waiting, closed, writer, size_left, size_diff, advance,
  is_sent, sendfile, call, sent_of, on_next, on_count, on_return, on_call, round, recorded, write,
  begun, turned, write_from,
}
use ehttpd.Writer.Sends.{content, sent_bytes}
use ehttpd.Writer.Turns.{fresh_response, writer-content, writer-keep_alive}
use ehttpd.Writer.Whole.{all_taken, writer-all_taken}
use ehttpd.Writer.Again.{writer-head_again}

abbrev ready : Event
ready = record { rready = true; wready = true; eof = false; error = false }

-- a header of three bytes and a file of two
abbrev page : List Chunk
page = file 0 2 ∷ []

abbrev in_pieces : List Answer
in_pieces = count 1 ∷ count 2 ∷ count 1 ∷ count 1 ∷ []

abbrev page_sent : Turn
page_sent = record {
  ending = keep_alive;
  response = record { chain = memory 13 13 ∷ file 2 2 ∷ []; last = 0; begin = true };
  event = record ready { wready = false };
  rest = [];
  trace =
      record { of_file = false; start = 10; size = 3; count = 1 }
      ∷ record { of_file = false; start = 11; size = 2; count = 2 }
      ∷ record { of_file = true; start = 0; size = 2; count = 1 }
      ∷ record { of_file = true; start = 1; size = 1; count = 1 }
      ∷ [];
}

run_page : writer ready (fresh_response (memory 10 13) page 1) in_pieces ≡ some page_sent
unfolding size_left size_diff advance is_sent sendfile call sent_of on_next on_count on_return
    on_call round recorded write begun turned write_from writer send on_sent
run_page = refl

writer-content_example :
    sent_bytes page_sent.trace ++ content page_sent.response.chain ≡ content (memory 10 13 ∷ page)
writer-content_example =
    writer-content ready (memory 10 13) page 1 in_pieces page_sent (omega arith, (omega arith, tt))
      run_page (omega arith, (omega arith, (omega arith, (omega arith, tt))))

writer-keep_alive_example : sent_bytes page_sent.trace ≡ content (memory 10 13 ∷ page)
writer-keep_alive_example =
    writer-keep_alive ready (memory 10 13) page 1 in_pieces page_sent
      (omega arith, (omega arith, tt)) run_page
      (omega arith, (omega arith, (omega arith, (omega arith, tt)))) refl

writer-all_taken_example :
    (t : Turn) × (writer ready
        (fresh_response (memory 10 13) page 1)
        (map all_taken (memory 10 13 ∷ page))
      ≡ some t)
    × (t.ending ≡ keep_alive)
writer-all_taken_example =
    writer-all_taken ready (memory 10 13) page 1 (omega arith, (omega arith, tt))

writer-head_again_example :
    (t : Turn) × (writer ready (fresh_response (memory 10 13) page 1) (count 3 ∷ failed eagain ∷ [])
      ≡ some t)
    × (t.ending ≡ waiting)
    × ((u : Turn) × (writer t.event t.response (interrupts 1 ++ (count 0 ∷ [])) ≡ some u)
        × (u.ending ≡ closed)
        × (u.trace ≡ [])
        × (u.response.chain ≡ memory 13 13 ∷ page))
writer-head_again_example = writer-head_again ready 10 13 (file 0 2) [] 1 1 [] (omega arith)
