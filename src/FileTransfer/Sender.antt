-- ===== src/FileTransfer/Sender.antt =====
-- `sendFile` and `sendWithRetry`. The frames go to an acknowledging sender, whose replies are given;
-- the pool's workers run between their `await`s, in any order. `encode` is the base64 of the ORP
-- library.
pub mod Retry
pub mod Pool
pub mod Phases
pub mod Window
pub mod Schedules
pub mod Fixed
pub mod Completion
use orpal.Base.{
  ℕ, zero, suc, ◌+◌, ◌-◌, ◌*◌, ◌^◌, String, Bool, true, false, List, [], ◌∷◌, ◌++◌, Option, none,
  some, length, leb, eqb, if◌then◌else◌, min, max, ◌>>=◌,
}
use orpal.Base.Tasks.{pick}
use orpal.Frames.{AppFrame, FileOfferFrame, file_offer, file_chunk, file_done}
use orpal.FileTransfer.{Bytes, chunk_count, read_chunk}

-- The reply to one `sendFrame`: it resolves, or throws a `DeliveryTimeoutError` or another error.
pub data Reply : Type 0 where
  acked timed_out broken : Reply

-- How a call of `sendWithRetry` ends: with the last reply, after these delays.
pub record Sent : Type 0 where
  pub last : Reply
  pub delays : List ℕ

abbrev delayed : ℕ → Sent → Sent
delayed ms s = record s { delays = ms ∷ s.delays }

-- The loop from its attempt on; `replies` are those to the attempts, by number.
unfoldable pub retry : ℕ → (ℕ → Reply) → (max_retries backoff_ms attempt : ℕ) → Option Sent
retry zero replies max_retries backoff_ms attempt = none
retry (suc fuel) replies max_retries backoff_ms attempt =
    let rest = retry fuel replies max_retries backoff_ms (suc attempt) in
    elim (replies attempt) [
      | acked ↦ some (record { last = acked; delays = [] })
      | broken ↦ some (record { last = broken; delays = [] })
      | timed_out ↦
          if leb max_retries attempt
          then some (record { last = timed_out; delays = [] })
          else (rest >>= λ s. some (delayed (backoff_ms * 2 ^ attempt) s))
    ]

-- One attempt and as many again as there are retries.
unfoldable pub send_with_retry : (ℕ → Reply) → (max_retries backoff_ms : ℕ) → Option Sent
send_with_retry replies max_retries backoff_ms =
    retry (suc max_retries) replies max_retries backoff_ms 0

pub record TransferProgress : Type 0 where
  pub file_id : String
  pub name : String
  pub transferred : ℕ
  pub total : ℕ
  pub chunks_done : ℕ
  pub chunks_total : ℕ

pub data Phase : Type 0 where
  offering transferring closing finished rejected : Phase

-- A worker of the pool at an `await`.
pub data Work : Type 0 where
  reading : ℕ → Work
  sending : ℕ → Work

pub record Sending : Type 0 where
  pub offer : FileOfferFrame
  pub bytes : Bytes
  pub window : ℕ
  pub phase : Phase
  pub next : ℕ
  pub transferred : ℕ
  pub chunks_done : ℕ
  pub work : List Work
  pub frames : List AppFrame
  pub progress : List TransferProgress

abbrev pub chunk_length : FileOfferFrame → ℕ → ℕ
chunk_length o i = min o.chunk_size (o.size - i * o.chunk_size)

-- `sendFile` up to the call that sends the offer.
unfoldable pub send_file :
    (file_id name mime sha256 : String) (bytes : Bytes) (chunk_size window now : ℕ) → Sending
send_file file_id name mime sha256 bytes chunk_size window now =
    let offer : FileOfferFrame = record {
      file_id = file_id;
      name = name;
      size = length bytes;
      mime = mime;
      chunk_size = chunk_size;
      chunks = chunk_count (length bytes) chunk_size;
      sha256 = sha256;
      ts = now;
    } in
    record {
      offer = offer;
      bytes = bytes;
      window = max 1 window;
      phase = offering;
      next = 0;
      transferred = 0;
      chunks_done = 0;
      work = [];
      frames = file_offer offer ∷ [];
      progress = [];
    }

unfoldable pub emit : Sending → Sending
emit s = record s {
  progress =
      s.progress
      ++ record {
        file_id = s.offer.file_id;
        name = s.offer.name;
        transferred = s.transferred;
        total = s.offer.size;
        chunks_done = s.chunks_done;
        chunks_total = s.offer.chunks;
      }
        ∷ [];
}

-- A worker takes the next index, and reads its chunk or returns.
unfoldable pub advance : Sending → Sending
advance s =
    let taken = record s { next = suc s.next } in
    if leb s.offer.chunks s.next
    then taken
    else (record taken { work = s.work ++ reading s.next ∷ [] })

unfoldable pub launch : ℕ → Sending → Sending
launch zero s = s
launch (suc n) s = launch n (advance s)

-- Behind `Promise.all`: once no worker is left the completion marker is sent.
unfoldable pub join : Sending → Sending
join s = elim s.phase [
  | transferring ↦
      if eqb (length s.work) 0
      then (record s { phase = closing; frames = s.frames ++ file_done s.offer.file_id ∷ [] })
      else s
  | _ ↦ s
]

-- The offer's `sendWithRetry` ends.
unfoldable pub offer_sent : Bool → Sending → Sending
offer_sent ok s = elim s.phase [
  | offering ↦
      if ok
      then join (launch (min s.window s.offer.chunks) (emit (record s { phase = transferring })))
      else (record s { phase = rejected })
  | _ ↦ s
]

-- A chunk's `sendWithRetry` ends. The first rejection rejects the whole; the other workers go on.
unfoldable pub chunk_sent : ℕ → Bool → Sending → Sending
chunk_sent i ok s =
    if ok
    then join (
        advance (
          emit (record s {
            transferred = s.transferred + chunk_length s.offer i;
            chunks_done = suc s.chunks_done;
          })))
    else (record s { phase = rejected })

-- The marker's `sendWithRetry` ends, either way.
unfoldable pub done_sent : Sending → Sending
done_sent s = elim s.phase [ closing ↦ record s { phase = finished } | _ ↦ s ]

pub data Move : Type 0 where
  offer_settles : Bool → Move
  reads : ℕ → Move
  settles : ℕ → Bool → Move
  done_settles : Move

module _ (encode : Bytes → String) where
  -- The chunk has been read, and its `sendWithRetry` begins.
  unfoldable pub chunk_read : ℕ → Sending → Sending
  chunk_read i s = record s {
    work = s.work ++ sending i ∷ [];
    frames =
        s.frames
        ++ file_chunk (record {
          file_id = s.offer.file_id;
          i = i;
          data_b64u = encode (read_chunk s.bytes (i * s.offer.chunk_size) (chunk_length s.offer i));
        })
          ∷ [];
  }

  unfoldable pub work_reads : Work → Sending → Sending
  work_reads (reading i) s = chunk_read i s
  work_reads (sending i) s = record s { work = s.work ++ sending i ∷ [] }

  unfoldable pub work_settles : Bool → Work → Sending → Sending
  work_settles ok (reading i) s = record s { work = s.work ++ reading i ∷ [] }
  work_settles ok (sending i) s = chunk_sent i ok s

  unfoldable pub step : Move → Sending → Sending
  step (offer_settles ok) s = offer_sent ok s
  step (reads n) s = elim (pick n s.work) [
    | none ↦ s
    | some (t, ts) ↦ work_reads t (record s { work = ts })
  ]
  step (settles n ok) s = elim (pick n s.work) [
    | none ↦ s
    | some (t, ts) ↦ work_settles ok t (record s { work = ts })
  ]
  step done_settles s = done_sent s

  unfoldable pub run : List Move → Sending → Sending
  run [] s = s
  run (m ∷ moves) s = run moves (step m s)
