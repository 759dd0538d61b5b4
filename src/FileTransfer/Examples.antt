-- ===== src/FileTransfer/Examples.antt =====
-- A file of five bytes in chunks of two.
use orpal.Base.{
  ℕ, zero, suc, ◌≤◌, ◌<◌, ◌≡◌, refl, List, [], ◌∷◌, some, true, inr, length, arith, String,
}
use orpal.NumberMap.{contains}
use orpal.FileTransfer.{Bytes, chunk, chunk_count, read_chunk}
use orpal.FileTransfer.Sink.{finalize, new_sink}
use orpal.FileTransfer.Assembled.{write_each, finalize-write_each}
use orpal.FileTransfer.Sender.{
  Sending, Reply, acked, timed_out, Move, offer_settles, reads, settles, done_settles, run,
  send_file, send_with_retry, retry, transferring, finished, step, offer_sent, launch, advance,
  emit, join, chunk_sent, work_reads, work_settles, chunk_read, done_sent,
}
use orpal.FileTransfer.Sender.Completion.{Delivered, run-window, run-completes, run-has_work}
use orpal.Base.Tasks.{pick}
use orpal.FileTransfer.Sender.Retry.{EndsAt, delays_from, send_with_retry-EndsAt}

abbrev file : Bytes
file = 10 ∷ 20 ∷ 30 ∷ 40 ∷ 50 ∷ []

-- Stands for the libraries' base64 and hash.
abbrev encode : Bytes → String
encode bytes = "b64u"

last_chunk : chunk 2 file 2 ≡ 50 ∷ []
unfolding chunk read_chunk
last_chunk = refl

-- The second chunk comes twice, and the first one last.
abbrev order : List ℕ
order = 1 ∷ 2 ∷ 1 ∷ 0 ∷ []

finalize-write_each_example :
    finalize encode (write_each 2 file order new_sink)
    ≡ some (encode file, record (write_each 2 file order new_sink) { assembled = some file })
unfolding chunk_count contains
finalize-write_each_example =
    finalize-write_each encode 2 file order (omega arith)
      (omega arith, (omega arith, (omega arith, (omega arith, tt)))) every
  where
    every : (i : ℕ) → i < 3 → contains i order ≡ true
    every i l = ground arith

replies : ℕ → Reply
replies zero = timed_out
replies (suc n) = acked

second_try : send_with_retry replies 3 250 ≡ some (record { last = acked; delays = 250 ∷ [] })
unfolding send_with_retry retry replies
second_try = refl

abbrev started : Sending
started = send_file "f1" "a.txt" "text/plain" "abc" file 2 2 7

abbrev half_way : List Move
half_way = offer_settles true ∷ reads 0 ∷ reads 0 ∷ settles 1 true ∷ []

abbrev schedule : List Move
schedule =
    offer_settles true
    ∷ reads 0
    ∷ reads 0
    ∷ settles 1 true
    ∷ reads 1
    ∷ settles 0 true
    ∷ settles 0 true
    ∷ done_settles
    ∷ []

phases :
    ((run encode half_way started).phase ≡ transferring)
    × ((run encode schedule started).phase ≡ finished)
unfolding run step send_file pick offer_sent launch advance emit join chunk_sent work_reads
    work_settles chunk_read done_sent chunk_count
phases = (refl, refl)

run-window_example : length (run encode half_way started).work ≤ 2
run-window_example =
    run-window encode "f1" "a.txt" "text/plain" "abc" file 2 2 7 half_way (omega arith)

run-completes_example :
    Delivered encode
      (record {
        file_id = "f1";
        name = "a.txt";
        size = 5;
        mime = "text/plain";
        chunk_size = 2;
        chunks = chunk_count 5 2;
        sha256 = "abc";
        ts = 7;
      })
      file
      (run encode schedule started)
run-completes_example =
    run-completes encode "f1" "a.txt" "text/plain" "abc" file 2 2 7 schedule (omega arith)
      (inr phases.1)

run-has_work_example : 0 < length (run encode half_way started).work
run-has_work_example =
    run-has_work encode "f1" "a.txt" "text/plain" "abc" file 2 2 7 half_way (omega arith) phases.0

send_with_retry-EndsAt_example :
    (k : ℕ) × EndsAt replies 3 0 k
    × (send_with_retry replies 3 250
        ≡ some (record { last = replies k; delays = delays_from 250 0 k }))
send_with_retry-EndsAt_example = send_with_retry-EndsAt replies 3 250
