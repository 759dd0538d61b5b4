-- ===== src/FileTransfer/Sender/Window.antt =====
-- `sendFile` over every schedule: the window is never exceeded, and what has been sent at the end.
use orpal.Base.{
  true, false, Bool, ◌⊎◌, ℕ, zero, suc, ◌+◌, ◌≤◌, ◌≡◌, refl, sym, ap, ◌∙◌, subst, [], ◌∷◌, leb, eqb,
  Bool-cases, inl, inr, arith, if◌then◌else◌, min, length,
}
use orpal.Base.Sums.{sum_by, sum_by-append}
use orpal.NumberMap.Count.{total_below}
use orpal.Frames.{file_done}
use orpal.FileTransfer.Sender.Pool.{launch-Pool, Pool, carries, will_read, weighs, one, taken}
use orpal.FileTransfer.Sender.{
  done_sent, emit, offer_sent, Sending, reading, Phase, offering, transferring, closing, finished,
  rejected, advance, launch, join, chunk_length,
}
use orpal.FileTransfer.Sender.Phases.{
  Complete, Fresh, AtPhase, Params, Inv, Pool-Complete, sum_by-one_lem, sum_by-idle,
}

-- The work that a worker adds where it goes on.
pub advance-one : (s : Sending) → sum_by one (advance s).work ≤ suc (sum_by one s.work)
unfolding advance
advance-one s = elim (Bool-cases (leb s.offer.chunks s.next)) [
  | inl over ↦ rw (advance, over) (omega arith)
  | inr more ↦ rw (advance, more) (omega (arith, sum_by-append one s.work (reading s.next ∷ [])))
]

pub advance-Params : (s : Sending) → Params s → Params (advance s)
unfolding advance
advance-Params s v = elim (Bool-cases (leb s.offer.chunks s.next)) [
  | inl over ↦
      rw (advance, over)
        (record { chunks = v.chunks; size_pos = v.size_pos; window_pos = v.window_pos })
  | inr more ↦
      rw (advance, more)
        (record { chunks = v.chunks; size_pos = v.size_pos; window_pos = v.window_pos })
]

pub advance-phase : (s : Sending) → ((advance s).phase ≡ s.phase) × ((advance s).window ≡ s.window)
unfolding advance
advance-phase s = elim (Bool-cases (leb s.offer.chunks s.next)) [
  | inl over ↦ rw (advance, over) (refl, refl)
  | inr more ↦ rw (advance, more) (refl, refl)
]

launch-Params :
    (n : ℕ) (s : Sending)
    → Params s
    → Params (launch n s)
      × ((launch n s).phase ≡ s.phase)
      × ((launch n s).window ≡ s.window)
      × (sum_by one (launch n s).work ≤ n + sum_by one s.work)
unfolding launch
launch-Params zero s v = (v, refl, refl, omega arith)
launch-Params (suc n) s v =
    let (q, ph, win, work) = launch-Params n (advance s) (advance-Params s v) in
    (q, ph ∙ (advance-phase s).0, win ∙ (advance-phase s).1, omega (arith, work, advance-one s))

-- Once the workers are launched, or one is done, the pool goes on or the marker is sent.
pub join-Inv :
    (s : Sending)
    → s.phase ≡ transferring
    → Params s
    → sum_by one s.work ≤ s.window
    → Pool 0 s
    → Inv (join s)
unfolding join
join-Inv s e v w p = elim (Bool-cases (eqb (length s.work) 0)) [
  | inl done ↦
      let idle : sum_by one s.work ≡ 0 = ground (arith, sum_by-one_lem s.work) in
      let c : Complete s = Pool-Complete s v p idle in
      rw (join, e, done)
        (record {
          params = record { chunks = v.chunks; size_pos = v.size_pos; window_pos = v.window_pos };
          window = w;
          phase = record {
            each_once = λ i. omega (
              arith,
              c.each_once i,
              sum_by-append (carries i) s.frames (file_done s.offer.file_id ∷ []),
            );
            all_done = c.all_done;
            all_bytes = c.all_bytes;
            idle = c.idle;
          };
        })
  | inr busy ↦
      rw (join, e, busy)
        (record {
          params = v;
          window = w;
          phase = subst (λ t. AtPhase t s) (sym e) (p, ground (arith, sum_by-one_lem s.work));
        })
]

pub Phase-cases :
    (p : Phase)
    → (p ≡ offering) ⊎ (p ≡ transferring) ⊎ (p ≡ closing) ⊎ (p ≡ finished) ⊎ (p ≡ rejected)
Phase-cases offering = inl refl
Phase-cases transferring = inr (inl refl)
Phase-cases closing = inr (inr (inl refl))
Phase-cases finished = inr (inr (inr (inl refl)))
Phase-cases rejected = inr (inr (inr (inr refl)))

pub at_phase : (s : Sending) (p : Phase) → s.phase ≡ p → Inv s → AtPhase p s
at_phase s p e v = subst (λ q. AtPhase q s) e v.phase

pub rejected-Inv : (s : Sending) → Inv s → Inv (record s { phase = rejected })
rejected-Inv s v = record {
  params = record {
    chunks = v.params.chunks;
    size_pos = v.params.size_pos;
    window_pos = v.params.window_pos;
  };
  window = v.window;
  phase = tt;
}

-- The offer has been acknowledged, and no worker has been launched.
begun :
    (s : Sending)
    → Params s
    → Fresh s
    → Params (emit (record s { phase = transferring }))
      × Pool (min s.window s.offer.chunks) (emit (record s { phase = transferring }))
      × ((emit (record s { phase = transferring })).phase ≡ transferring)
      × ((emit (record s { phase = transferring })).window ≡ s.window)
      × (sum_by one (emit (record s { phase = transferring })).work ≡ 0)
unfolding emit
begun s v f = (
  record { chunks = v.chunks; size_pos = v.size_pos; window_pos = v.window_pos },
  record {
    carried =
        λ i. ground (arith, f.uncarried i, sum_by-idle (will_read i) s.work f.idle, f.unstarted);
    counted = omega (arith, f.undone, f.idle, f.unstarted);
    weighed = omega (arith, f.unsent, sum_by-idle (weighs s.offer) s.work f.idle, none_taken);
    manned = inl (omega (arith, f.idle));
  },
  refl,
  refl,
  f.idle,
)
  where
    none_taken : total_below (chunk_length s.offer) (taken s) ≡ 0
    none_taken =
        let e : taken s ≡ 0 = omega (arith, f.unstarted) in
        ap (total_below (chunk_length s.offer)) e

launched-Inv :
    (s : Sending)
    → Params s
    → Fresh s
    → Inv (join (launch (min s.window s.offer.chunks) (emit (record s { phase = transferring }))))
launched-Inv s v f =
    let (params, pool, phase, window, idle) = begun s v f in
    let n = min s.window s.offer.chunks in
    let (q, ph, win, work) = launch-Params n (emit (record s { phase = transferring })) params in
    join-Inv (launch n (emit (record s { phase = transferring }))) (ph ∙ phase) q
      (omega (arith, work, win, window, idle))
      (launch-Pool n (emit (record s { phase = transferring })) pool)

pub offer_sent-Inv : (ok : Bool) (s : Sending) → Inv s → Inv (offer_sent ok s)
unfolding offer_sent
offer_sent-Inv ok s v = elim (Phase-cases s.phase) [
  | inl e ↦ rw (offer_sent, e) (settled ok (at_phase s offering e v))
  | inr (inl e) ↦ rw (offer_sent, e) v
  | inr (inr (inl e)) ↦ rw (offer_sent, e) v
  | inr (inr (inr (inl e))) ↦ rw (offer_sent, e) v
  | inr (inr (inr (inr e))) ↦ rw (offer_sent, e) v
]
  where
    settled :
        (b : Bool)
        → Fresh s
        → Inv (
            if b
            then join
                (launch (min s.window s.offer.chunks) (emit (record s { phase = transferring })))
            else (record s { phase = rejected }))
    settled false f = rejected-Inv s v
    settled true f = launched-Inv s v.params f

pub done_sent-Inv : (s : Sending) → Inv s → Inv (done_sent s)
unfolding done_sent
done_sent-Inv s v = elim (Phase-cases s.phase) [
  | inl e ↦ rw (done_sent, e) v
  | inr (inl e) ↦ rw (done_sent, e) v
  | inr (inr (inl e)) ↦
      let c : Complete s = at_phase s closing e v in
      rw (done_sent, e)
        (record {
          params = record {
            chunks = v.params.chunks;
            size_pos = v.params.size_pos;
            window_pos = v.params.window_pos;
          };
          window = v.window;
          phase = record {
            each_once = c.each_once;
            all_done = c.all_done;
            all_bytes = c.all_bytes;
            idle = c.idle;
          };
        })
  | inr (inr (inr (inl e))) ↦ rw (done_sent, e) v
  | inr (inr (inr (inr e))) ↦ rw (done_sent, e) v
]
