-- ===== src/FileTransfer/Sender/Phases.antt =====
-- The invariant of `sendFile`, by phase, and what holds once the pool has no work left.
use orpal.Base.{
  ℕ, zero, suc, ◌*◌, ◌≤◌, ◌<◌, ◌≡◌, refl, ap, List, [], ◌∷◌, ltb, arith, if◌then◌else◌, min, length,
}
use orpal.Base.Sums.{sum_by}
use orpal.NumberMap.Count.{total_below}
use orpal.Frames.{FileOfferFrame}
use orpal.FileTransfer.{chunk_count}
use orpal.FileTransfer.AnyOrder.{chunk_count-bounds}
use orpal.FileTransfer.Sender.Pool.{Pool, carries, will_read, weighs, one, taken}
use orpal.FileTransfer.Sender.{
  Sending, Work, Phase, offering, transferring, closing, finished, rejected, chunk_length,
}

-- Every chunk has been sent in exactly one frame, and has been counted; nothing is under way.
pub record Complete (s : Sending) : Type 0 where
  pub each_once : (i : ℕ) → sum_by (carries i) s.frames ≡ (if ltb i s.offer.chunks then 1 else 0)
  pub all_done : s.chunks_done ≡ s.offer.chunks
  pub all_bytes : s.transferred ≡ s.offer.size
  pub idle : sum_by one s.work ≡ 0

pub record Fresh (s : Sending) : Type 0 where
  pub uncarried : (i : ℕ) → sum_by (carries i) s.frames ≡ 0
  pub unstarted : s.next ≡ 0
  pub undone : s.chunks_done ≡ 0
  pub unsent : s.transferred ≡ 0
  pub idle : sum_by one s.work ≡ 0

abbrev pub AtPhase : Phase → Sending → Type 0
AtPhase offering s = Fresh s
AtPhase transferring s = Pool 0 s × (0 < sum_by one s.work)
AtPhase closing s = Complete s
AtPhase finished s = Complete s
AtPhase rejected s = Unit {0}

pub record Params (s : Sending) : Type 0 where
  pub chunks : s.offer.chunks ≡ chunk_count s.offer.size s.offer.chunk_size
  pub size_pos : 0 < s.offer.chunk_size
  pub window_pos : 0 < s.window

pub record Inv (s : Sending) : Type 0 where
  pub params : Params s
  pub window : sum_by one s.work ≤ s.window
  pub phase : AtPhase s.phase s

total-chunk_length :
    (o : FileOfferFrame) (n : ℕ) → total_below (chunk_length o) n ≡ min (n * o.chunk_size) o.size
total-chunk_length o zero = omega arith
total-chunk_length o (suc n) = grind (arith, total-chunk_length o n)

pub sum_by-one_lem : (ts : List Work) → sum_by one ts ≡ length ts
sum_by-one_lem [] = refl
sum_by-one_lem (t ∷ ts) = omega (arith, sum_by-one_lem ts)

pub sum_by-idle : (f : Work → ℕ) (ts : List Work) → sum_by one ts ≡ 0 → sum_by f ts ≡ 0
sum_by-idle f [] e = refl
sum_by-idle f (t ∷ ts) e = absurd (omega arith)

-- A pool without work is done.
pub Pool-Complete : (s : Sending) → Params s → Pool 0 s → sum_by one s.work ≡ 0 → Complete s
Pool-Complete s v p e =
    let all : taken s ≡ s.offer.chunks = ground (arith, p.manned, v.window_pos) in
    let cover = chunk_count-bounds s.offer.size s.offer.chunk_size v.size_pos in
    let count : s.offer.chunks * s.offer.chunk_size
        ≡ chunk_count s.offer.size s.offer.chunk_size * s.offer.chunk_size =
      ap (λ (n : ℕ). n * s.offer.chunk_size) v.chunks in
    record {
      each_once = λ i. ground (arith, p.carried i, sum_by-idle (will_read i) s.work e, all);
      all_done = omega (arith, p.counted, all, e);
      all_bytes = omega (
        arith,
        p.weighed,
        sum_by-idle (weighs s.offer) s.work e,
        ap (total_below (chunk_length s.offer)) all,
        total-chunk_length s.offer s.offer.chunks,
        cover,
        count,
      );
      idle = e;
    }
