-- ===== src/FileTransfer/Sender/Pool.antt =====
-- The sliding window: how many chunks are under way at once, and what has been sent in the end.
use orpal.Base.{
  ◌*◌, some, zero, String, List, ℕ, suc, ◌+◌, ◌≤◌, ◌≡◌, ap, [], ◌∷◌, leb, ltb, eqb, Bool-cases, inl,
  inr, ◌⊎◌, arith, if◌then◌else◌, min,
}
use orpal.Base.Sums.{sum_by-pick, sum_by, sum_by-append}
use orpal.NumberMap.Count.{total_below}
use orpal.Frames.{FileChunkFrame, AppFrame, FileOfferFrame, file_chunk}
use orpal.FileTransfer.Sender.{
  read_chunk, pick, Bytes, chunk_read, emit, launch, Sending, Work, reading, sending, advance,
  chunk_length,
}

-- One for each frame that carries the chunk `i`.
abbrev pub carries : ℕ → AppFrame → ℕ
carries i (file_chunk c) = if eqb c.i i then 1 else 0
carries i _ = 0

-- One for a worker that is about to read the chunk `i`.
abbrev pub will_read : ℕ → Work → ℕ
will_read i (reading j) = if eqb j i then 1 else 0
will_read i (sending j) = 0

abbrev pub weighs : FileOfferFrame → Work → ℕ
weighs o (reading j) = chunk_length o j
weighs o (sending j) = chunk_length o j

abbrev pub one : Work → ℕ
one t = 1

-- The chunks whose turn has come.
abbrev pub taken : Sending → ℕ
taken s = min s.next s.offer.chunks

-- `idle` workers have been launched and are between two chunks.
pub record Pool (idle : ℕ) (s : Sending) : Type 0 where
  pub carried :
      (i : ℕ)
      → sum_by (carries i) s.frames + sum_by (will_read i) s.work
        ≡ (if ltb i (taken s) then 1 else 0)
  pub counted : s.chunks_done + sum_by one s.work ≡ taken s
  pub weighed :
      s.transferred + sum_by (weighs s.offer) s.work ≡ total_below (chunk_length s.offer) (taken s)
  pub manned : (sum_by one s.work + idle ≡ min s.window s.offer.chunks) ⊎ (s.offer.chunks ≤ s.next)

pub advance-Pool : (idle : ℕ) (s : Sending) → Pool (suc idle) s → Pool idle (advance s)
unfolding advance
advance-Pool idle s p = elim (Bool-cases (leb s.offer.chunks s.next)) [
  | inl over ↦
      let still : min (suc s.next) s.offer.chunks ≡ min s.next s.offer.chunks = ground arith in
      rw (over, advance)
        (record {
          carried = λ i. ground (arith, p.carried i);
          counted = ground (arith, p.counted);
          weighed = ground (arith, p.weighed, ap (total_below (chunk_length s.offer)) still);
          manned = inr (ground arith);
        })
  | inr more ↦
      let was : min s.next s.offer.chunks ≡ s.next = ground arith in
      let now : min (suc s.next) s.offer.chunks ≡ suc s.next = ground arith in
      rw (more, advance)
        (record {
          carried = λ i.
              ground (arith, p.carried i, sum_by-append (will_read i) s.work (reading s.next ∷ []));
          counted = ground (arith, p.counted, sum_by-append one s.work (reading s.next ∷ []));
          weighed = omega (
            arith,
            p.weighed,
            sum_by-append (weighs s.offer) s.work (reading s.next ∷ []),
            ap (total_below (chunk_length s.offer)) was,
            ap (total_below (chunk_length s.offer)) now,
          );
          manned = ground (arith, p.manned, sum_by-append one s.work (reading s.next ∷ []));
        })
]

pub launch-Pool : (n : ℕ) (s : Sending) → Pool n s → Pool 0 (launch n s)
unfolding launch
launch-Pool zero s p = p
launch-Pool (suc n) s p = launch-Pool n (advance s) (advance-Pool n s p)

abbrev sent_chunk : (Bytes → String) → Sending → ℕ → FileChunkFrame
sent_chunk encode s i = record {
  file_id = s.offer.file_id;
  i = i;
  data_b64u = encode (read_chunk s.bytes (i * s.offer.chunk_size) (chunk_length s.offer i));
}

-- A worker has read its chunk and sends it.
pub chunk_read-Pool :
    (encode : Bytes → String) (s : Sending) (n i : ℕ) (ts : List Work)
    → pick n s.work ≡ some (reading i, ts)
    → Pool 0 s
    → Pool 0 (chunk_read encode i (record s { work = ts }))
unfolding chunk_read
chunk_read-Pool encode s n i ts at p = record {
  carried = λ j. ground (
    arith,
    p.carried j,
    sum_by-pick (will_read j) n s.work (reading i) ts at,
    sum_by-append (will_read j) ts (sending i ∷ []),
    sum_by-append (carries j) s.frames (file_chunk (sent_chunk encode s i) ∷ []),
  );
  counted = omega (
    arith,
    p.counted,
    sum_by-pick one n s.work (reading i) ts at,
    sum_by-append one ts (sending i ∷ []),
  );
  weighed = omega (
    arith,
    p.weighed,
    sum_by-pick (weighs s.offer) n s.work (reading i) ts at,
    sum_by-append (weighs s.offer) ts (sending i ∷ []),
  );
  manned = ground (
    arith,
    p.manned,
    sum_by-pick one n s.work (reading i) ts at,
    sum_by-append one ts (sending i ∷ []),
  );
}

-- A worker's chunk has been acknowledged, and it is idle.
pub acknowledged-Pool :
    (s : Sending) (n i : ℕ) (ts : List Work)
    → pick n s.work ≡ some (sending i, ts)
    → Pool 0 s
    → Pool 1 (
        emit (record s {
          work = ts;
          transferred = s.transferred + chunk_length s.offer i;
          chunks_done = suc s.chunks_done;
        }))
unfolding emit
acknowledged-Pool s n i ts at p = record {
  carried = λ j. ground (arith, p.carried j, sum_by-pick (will_read j) n s.work (sending i) ts at);
  counted = omega (arith, p.counted, sum_by-pick one n s.work (sending i) ts at);
  weighed = omega (arith, p.weighed, sum_by-pick (weighs s.offer) n s.work (sending i) ts at);
  manned = ground (arith, p.manned, sum_by-pick one n s.work (sending i) ts at);
}
