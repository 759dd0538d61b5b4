-- ===== src/FileTransfer/Sender/Completion.antt =====
-- `sendFile` from its call on: the bound on what is under way, and what a finished transfer has sent.
use orpal.Base.{
  subst, All, ℕ, ◌≤◌, ◌<◌, ◌≡◌, refl, ap, ◌∙◌, List, arith, ltb, if◌then◌else◌, max, length, String,
  ◌⊎◌, inl, inr,
}
use orpal.Base.Sums.{sum_by}
use orpal.FileTransfer.{Bytes, chunk_count}
use orpal.FileTransfer.Sender.Pool.{carries}
use orpal.FileTransfer.Sender.Phases.{Complete, Inv, sum_by-one_lem}
use orpal.Frames.{FileOfferFrame}
use orpal.FileTransfer.Sender.Window.{at_phase}
use orpal.FileTransfer.Sender.Schedules.{run-Inv}
use orpal.FileTransfer.Sender.Fixed.{IsOwn, Own, run-Same}
use orpal.FileTransfer.Sender.{Sending, Move, run, send_file, transferring, closing, finished}

send_file-Inv :
    (file_id name mime sha256 : String) (bytes : Bytes) (chunk_size window now : ℕ)
    → 0 < chunk_size
    → Inv (send_file file_id name mime sha256 bytes chunk_size window now)
unfolding send_file
send_file-Inv file_id name mime sha256 bytes chunk_size window now pos = record {
  params = record { chunks = refl; size_pos = pos; window_pos = omega arith };
  window = omega arith;
  phase = record {
    uncarried = λ i. refl;
    unstarted = refl;
    undone = refl;
    unsent = refl;
    idle = refl;
  };
}

send_file-window :
    (file_id name mime sha256 : String) (bytes : Bytes) (chunk_size window now : ℕ)
    → (send_file file_id name mime sha256 bytes chunk_size window now).window ≡ max 1 window
unfolding send_file
send_file-window file_id name mime sha256 bytes chunk_size window now = refl

send_file-Own :
    (encode : Bytes → String) (file_id name mime sha256 : String) (bytes : Bytes)
    (chunk_size window now : ℕ)
    → ((send_file file_id name mime sha256 bytes chunk_size window now).offer ≡ record {
      file_id = file_id;
      name = name;
      size = length bytes;
      mime = mime;
      chunk_size = chunk_size;
      chunks = chunk_count (length bytes) chunk_size;
      sha256 = sha256;
      ts = now;
    })
      × ((send_file file_id name mime sha256 bytes chunk_size window now).bytes ≡ bytes)
      × Own encode (send_file file_id name mime sha256 bytes chunk_size window now)
unfolding send_file
send_file-Own encode file_id name mime sha256 bytes chunk_size window now =
    (refl, refl, (refl, (refl, tt)))

-- All of the file has been sent, each chunk once with its bytes, under the offer.
pub record Delivered (encode : Bytes → String) (offer : FileOfferFrame) (bytes : Bytes)
    (s : Sending) : Type 0 where
  pub own : All (IsOwn encode offer bytes) s.frames
  pub each_once :
      (i : ℕ)
      → sum_by (carries i) s.frames
        ≡ (if ltb i (chunk_count (length bytes) offer.chunk_size) then 1 else 0)
  pub all_done : s.chunks_done ≡ chunk_count (length bytes) offer.chunk_size
  pub all_bytes : s.transferred ≡ length bytes
  pub idle : length s.work ≡ 0

Complete-Delivered :
    (encode : Bytes → String) (offer : FileOfferFrame) (bytes : Bytes) (s : Sending)
    → Complete s
    → s.offer ≡ offer
    → s.bytes ≡ bytes
    → Own encode s
    → offer.chunks ≡ chunk_count (length bytes) offer.chunk_size
    → offer.size ≡ length bytes
    → Delivered encode offer bytes s
Complete-Delivered encode offer bytes s c same file own chunks size = record {
  own =
      subst (λ (o : FileOfferFrame). All (IsOwn encode o bytes) s.frames) same
        (subst (λ b. All (IsOwn encode s.offer b) s.frames) file own.1);
  each_once = λ i. c.each_once i ∙ ap (λ (n : ℕ). if ltb i n then 1 else 0) (of_offer ∙ chunks);
  all_done = c.all_done ∙ of_offer ∙ chunks;
  all_bytes = c.all_bytes ∙ ap (λ (o : FileOfferFrame). o.size) same ∙ size;
  idle = omega (arith, c.idle, sum_by-one_lem s.work);
}
  where
    of_offer : s.offer.chunks ≡ offer.chunks
    of_offer = ap (λ (o : FileOfferFrame). o.chunks) same

-- At no point of any schedule are more chunks under way than the window, which is one at least, for
-- every positive chunk size.
pub run-window :
    (encode : Bytes → String) (file_id name mime sha256 : String) (bytes : Bytes)
    (chunk_size window now : ℕ) (moves : List Move)
    → 0 < chunk_size
    → length
        (run encode moves (send_file file_id name mime sha256 bytes chunk_size window now)).work
      ≤ max 1 window
run-window encode file_id name mime sha256 bytes chunk_size window now moves pos =
    let v =
      run-Inv encode moves _
        (send_file-Inv file_id name mime sha256 bytes chunk_size window now pos) in
    omega (
      arith,
      v.window,
      (run-Same encode moves (send_file file_id name mime sha256 bytes chunk_size window now)).1,
      send_file-window file_id name mime sha256 bytes chunk_size window now,
      sum_by-one_lem
          (run encode moves (send_file file_id name mime sha256 bytes chunk_size window now)).work,
    )

-- Whatever the schedule, where the completion marker is sent each chunk of the file has been sent in
-- exactly one chunk frame and no other index in any; each chunk frame carries the encoded bytes that the
-- file has at the chunk's place; each offer and each marker sent is the transfer's, and frames of no other
-- kind have been sent; the counts of the chunks done and of the bytes transferred are those of the file,
-- and no worker is left. This is for every positive chunk size.
pub run-completes :
    (encode : Bytes → String) (file_id name mime sha256 : String) (bytes : Bytes)
    (chunk_size window now : ℕ) (moves : List Move)
    → 0 < chunk_size
    → ((run encode moves (send_file file_id name mime sha256 bytes chunk_size window now)).phase
        ≡ closing)
      ⊎ ((run encode moves (send_file file_id name mime sha256 bytes chunk_size window now)).phase
          ≡ finished)
    → Delivered encode
        (record {
          file_id = file_id;
          name = name;
          size = length bytes;
          mime = mime;
          chunk_size = chunk_size;
          chunks = chunk_count (length bytes) chunk_size;
          sha256 = sha256;
          ts = now;
        })
        bytes
        (run encode moves (send_file file_id name mime sha256 bytes chunk_size window now))
run-completes encode file_id name mime sha256 bytes chunk_size window now moves pos at_end =
    let v =
      run-Inv encode moves _
        (send_file-Inv file_id name mime sha256 bytes chunk_size window now pos) in
    let same =
      run-Same encode moves (send_file file_id name mime sha256 bytes chunk_size window now) in
    let (offered, file, own) =
      send_file-Own encode file_id name mime sha256 bytes chunk_size window now in
    Complete-Delivered encode _ bytes _
      (elim at_end [ inl e ↦ at_phase _ closing e v | inr e ↦ at_phase _ finished e v ])
      (same.0 ∙ offered) (same.2 ∙ file) (same.3 own) refl refl

-- While the chunks are being sent a worker is under way, whatever the schedule, so that the transfer
-- is never stuck, for every positive chunk size.
pub run-has_work :
    (encode : Bytes → String) (file_id name mime sha256 : String) (bytes : Bytes)
    (chunk_size window now : ℕ) (moves : List Move)
    → 0 < chunk_size
    → (run encode moves (send_file file_id name mime sha256 bytes chunk_size window now)).phase
      ≡ transferring
    → 0
      < length
          (run encode moves (send_file file_id name mime sha256 bytes chunk_size window now)).work
run-has_work encode file_id name mime sha256 bytes chunk_size window now moves pos e =
    let v =
      run-Inv encode moves _
        (send_file-Inv file_id name mime sha256 bytes chunk_size window now pos) in
    let (pool, some_work) = at_phase _ transferring e v in
    omega (
      arith,
      some_work,
      sum_by-one_lem
          (run encode moves (send_file file_id name mime sha256 bytes chunk_size window now)).work,
    )
