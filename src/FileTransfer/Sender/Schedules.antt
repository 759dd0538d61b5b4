-- ===== src/FileTransfer/Sender/Schedules.antt =====
-- Every move of `sendFile` keeps its invariant, and what that says of a run.
use orpal.Base.{
  ℕ, suc, ◌+◌, ◌≤◌, ◌<◌, ◌≡◌, refl, sym, ◌∙◌, subst, List, [], ◌∷◌, ◌++◌, some, Bool, true, false,
  Option-cases, inl, inr, ◌⊎◌, arith, String,
}
use orpal.Base.Tasks.{pick}
use orpal.Base.Sums.{sum_by, sum_by-append, sum_by-pick}
use orpal.FileTransfer.{Bytes}
use orpal.FileTransfer.Sender.Pool.{
  will_read, weighs, one, advance-Pool, chunk_read-Pool, acknowledged-Pool,
}
use orpal.FileTransfer.Sender.{
  Sending, Work, reading, sending, Phase, offering, transferring, closing, finished, rejected, Move,
  offer_settles, reads, settles, done_settles, emit, advance, join, chunk_sent, chunk_read,
  work_reads, work_settles, step, run, chunk_length,
}
use orpal.FileTransfer.Sender.Phases.{AtPhase, Params, Inv}
use orpal.FileTransfer.Sender.Window.{
  offer_sent-Inv, done_sent-Inv, join-Inv, advance-Params, advance-phase, advance-one, at_phase,
}

-- Where work is under way, the chunks are being sent or the transfer has been rejected.
busy :
    (p : Phase) (s : Sending)
    → AtPhase p s
    → 0 < sum_by one s.work
    → (p ≡ transferring) ⊎ (p ≡ rejected)
busy offering s h l = absurd (omega (arith, h.idle))
busy transferring s h l = inl refl
busy closing s h l = absurd (omega (arith, h.idle))
busy finished s h l = absurd (omega (arith, h.idle))
busy rejected s h l = inr refl

module _ (s : Sending) (v : Inv s) (n : ℕ) (t : Work) (ts : List Work)
    (at : pick n s.work ≡ some (t, ts)) where
  busy_phase : (s.phase ≡ transferring) ⊎ (s.phase ≡ rejected)
  busy_phase = busy s.phase s v.phase (omega (arith, sum_by-pick one n s.work t ts at))

  back : (f : Work → ℕ) → sum_by f (ts ++ t ∷ []) ≡ sum_by f s.work
  back f = omega (arith, sum_by-pick f n s.work t ts at, sum_by-append f ts (t ∷ []))

  back-AtPhase :
      (p : Phase)
      → (p ≡ transferring) ⊎ (p ≡ rejected)
      → AtPhase p s
      → AtPhase p (record s { work = ts ++ t ∷ [] })
  back-AtPhase transferring b (h, some_work) = (
    record {
      carried = λ i. omega (arith, h.carried i, back (will_read i));
      counted = omega (arith, h.counted, back one);
      weighed = omega (arith, h.weighed, back (weighs s.offer));
      manned = ground (arith, h.manned, back one);
    },
    omega (arith, some_work, back one),
  )
  back-AtPhase rejected b h = tt
  back-AtPhase offering b h = elim b [ inl e ↦ absurd cc | inr e ↦ absurd cc ]
  back-AtPhase closing b h = elim b [ inl e ↦ absurd cc | inr e ↦ absurd cc ]
  back-AtPhase finished b h = elim b [ inl e ↦ absurd cc | inr e ↦ absurd cc ]

  -- The work waits on.
  back-Inv : Inv (record s { work = ts ++ t ∷ [] })
  back-Inv = record {
    params = record {
      chunks = v.params.chunks;
      size_pos = v.params.size_pos;
      window_pos = v.params.window_pos;
    };
    window = omega (arith, v.window, back one);
    phase = back-AtPhase s.phase busy_phase v.phase;
  }

chunk_read-Inv :
    (encode : Bytes → String) (s : Sending) (n i : ℕ) (ts : List Work)
    → Inv s
    → pick n s.work ≡ some (reading i, ts)
    → Inv (chunk_read encode i (record s { work = ts }))
unfolding chunk_read
chunk_read-Inv encode s n i ts v at = record {
  params = record {
    chunks = v.params.chunks;
    size_pos = v.params.size_pos;
    window_pos = v.params.window_pos;
  };
  window = omega (
    arith,
    v.window,
    sum_by-pick one n s.work (reading i) ts at,
    sum_by-append one ts (sending i ∷ []),
  );
  phase = elim (busy_phase s v n (reading i) ts at) [
    | inl e ↦
        subst (λ p. AtPhase p u) (sym e)
          (
            (unfold chunk_read in
                chunk_read-Pool encode s n i ts at ((at_phase s transferring e v).0)),
            omega (arith, sum_by-append one ts (sending i ∷ [])),
          )
    | inr e ↦ subst (λ p. AtPhase p u) (sym e) tt
  ];
}
  where
    u : Sending
    u = chunk_read encode i (record s { work = ts })

-- The worker whose chunk has been acknowledged, before it goes on.
abbrev counted : ℕ → List Work → Sending → Sending
counted i ts s = emit (record s {
  work = ts;
  transferred = s.transferred + chunk_length s.offer i;
  chunks_done = suc s.chunks_done;
})

counted-facts_lem :
    (i : ℕ) (ts : List Work) (s : Sending)
    → Params s
    → Params (counted i ts s)
      × ((counted i ts s).phase ≡ s.phase)
      × ((counted i ts s).window ≡ s.window)
      × (sum_by one (counted i ts s).work ≡ sum_by one ts)
unfolding emit
counted-facts_lem i ts s v = (
  record { chunks = v.chunks; size_pos = v.size_pos; window_pos = v.window_pos },
  refl,
  refl,
  refl,
)

-- A transfer that has been rejected is not joined.
join-rejected :
    (s : Sending) → s.phase ≡ rejected → Params s → sum_by one s.work ≤ s.window → Inv (join s)
unfolding join
join-rejected s e v w =
    rw (join, e) (record { params = v; window = w; phase = subst (λ p. AtPhase p s) (sym e) tt })

chunk_sent-Inv :
    (ok : Bool) (s : Sending) (n i : ℕ) (ts : List Work)
    → Inv s
    → pick n s.work ≡ some (sending i, ts)
    → Inv (chunk_sent i ok (record s { work = ts }))
unfolding chunk_sent
chunk_sent-Inv false s n i ts v at = record {
  params = record {
    chunks = v.params.chunks;
    size_pos = v.params.size_pos;
    window_pos = v.params.window_pos;
  };
  window = omega (arith, v.window, sum_by-pick one n s.work (sending i) ts at);
  phase = tt;
}
chunk_sent-Inv true s n i ts v at =
    let (params, phase, window, work) = counted-facts_lem i ts s v.params in
    let params' = advance-Params u params in
    let (ph, win) = advance-phase u in
    let fits : sum_by one (advance u).work ≤ (advance u).window = omega (
      arith,
      v.window,
      advance-one u,
      sum_by-pick one n s.work (sending i) ts at,
      work,
      window,
      win,
    ) in
    elim (busy_phase s v n (sending i) ts at) [
      | inl e ↦
          join-Inv (advance u) (ph ∙ (phase ∙ e)) params' fits
            (advance-Pool 0 u (acknowledged-Pool s n i ts at ((at_phase s transferring e v).0)))
      | inr e ↦ join-rejected (advance u) (ph ∙ (phase ∙ e)) params' fits
    ]
  where
    u : Sending
    u = counted i ts s

module _ (encode : Bytes → String) where
  work_reads-Inv :
      (s : Sending) (n : ℕ) (t : Work) (ts : List Work)
      → Inv s
      → pick n s.work ≡ some (t, ts)
      → Inv (work_reads encode t (record s { work = ts }))
  unfolding work_reads
  work_reads-Inv s n (reading i) ts v at = chunk_read-Inv encode s n i ts v at
  work_reads-Inv s n (sending i) ts v at = back-Inv s v n (sending i) ts at

  work_settles-Inv :
      (ok : Bool) (s : Sending) (n : ℕ) (t : Work) (ts : List Work)
      → Inv s
      → pick n s.work ≡ some (t, ts)
      → Inv (work_settles encode ok t (record s { work = ts }))
  unfolding work_settles
  work_settles-Inv ok s n (reading i) ts v at = back-Inv s v n (reading i) ts at
  work_settles-Inv ok s n (sending i) ts v at = chunk_sent-Inv ok s n i ts v at

  step-Inv : (m : Move) (s : Sending) → Inv s → Inv (step encode m s)
  unfolding step
  step-Inv (offer_settles ok) s v = offer_sent-Inv ok s v
  step-Inv (reads n) s v = elim (Option-cases (pick n s.work)) [
    | inl out ↦ rw (step, out) v
    | inr ((t, ts), at) ↦ rw (step, at) (work_reads-Inv s n t ts v at)
  ]
  step-Inv (settles n ok) s v = elim (Option-cases (pick n s.work)) [
    | inl out ↦ rw (step, out) v
    | inr ((t, ts), at) ↦ rw (step, at) (work_settles-Inv ok s n t ts v at)
  ]
  step-Inv done_settles s v = done_sent-Inv s v

  pub run-Inv : (moves : List Move) (s : Sending) → Inv s → Inv (run encode moves s)
  unfolding run
  run-Inv [] s v = v
  run-Inv (m ∷ moves) s v = run-Inv moves (step encode m s) (step-Inv m s v)
