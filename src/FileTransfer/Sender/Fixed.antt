-- ===== src/FileTransfer/Sender/Fixed.antt =====
-- What no move of `sendFile` changes: the offer, the window, the bytes, and that its frames are its own.
use orpal.Base.{
  length-drop, All-append, sym, arith, ◌*◌, ◌-◌, ap, ◌++◌, drop, All, take, ℕ, zero, suc, ◌≡◌, refl,
  ◌∙◌, List, [], ◌∷◌, leb, eqb, Bool, true, false, Option-cases, inl, inr, if◌then◌else◌, min,
  length, String,
}
use orpal.Base.Tasks.{pick}
use orpal.FileTransfer.{read_chunk, Bytes}
use orpal.FileTransfer.Sender.Window.{Phase-cases}
use orpal.FileTransfer.Sender.{
  chunk_length, file_done, file_offer, file_chunk, FileOfferFrame, AppFrame, Sending, Work, reading,
  sending, transferring, Move, offer_settles, reads, settles, done_settles, emit, advance, launch,
  join, offer_sent, chunk_sent, done_sent, chunk_read, work_reads, work_settles, step, run,
}

-- Where a list ends, a longer piece of it is the same.
take-min : (n : ℕ) (xs : Bytes) → take (min n (length xs)) xs ≡ take n xs
take-min zero xs =
    let none_left : min 0 (length xs) ≡ 0 = omega arith in ap (λ (k : ℕ). take k xs) none_left
take-min (suc n) [] =
    let none_left : min (suc n) 0 ≡ 0 = omega arith in ap (λ (k : ℕ). take {A = ℕ} k []) none_left
take-min (suc n) (x ∷ xs) =
    let shift : min (suc n) (suc (length xs)) ≡ suc (min n (length xs)) = omega arith in
    ap (λ (k : ℕ). take k (x ∷ xs)) shift ∙ ap (◌∷◌ x) (take-min n xs)

take_all :
    (n from size : ℕ) (xs : Bytes)
    → size ≡ length xs
    → take (min n (size - from)) (drop from xs) ≡ take n (drop from xs)
take_all n from size xs e =
    ap (λ k. take (min n k) (drop from xs)) (ap (λ (k : ℕ). k - from) e ∙ sym (length-drop from xs))
    ∙ take-min n (drop from xs)

module _ (encode : Bytes → String) where
  -- A chunk's frame carries the bytes of the file from its place on, as many as a chunk has; the offer
  -- and the marker are those of the transfer, and no other frame is sent.
  abbrev pub IsOwn : FileOfferFrame → Bytes → AppFrame → Type 0
  IsOwn offer bytes (file_offer o) = o ≡ offer
  IsOwn offer bytes (file_chunk c) = c ≡ record {
    file_id = offer.file_id;
    i = c.i;
    data_b64u = encode (take offer.chunk_size (drop (c.i * offer.chunk_size) bytes));
  }
  IsOwn offer bytes (file_done id) = id ≡ offer.file_id
  IsOwn offer bytes _ = ⊥

  abbrev pub Own : Sending → Type 0
  Own s = (s.offer.size ≡ length s.bytes) × All (IsOwn s.offer s.bytes) s.frames

  abbrev pub Same : Sending → Sending → Type 0
  Same s u = (u.offer ≡ s.offer) × (u.window ≡ s.window) × (u.bytes ≡ s.bytes) × (Own s → Own u)

  Same-trans : (s u w : Sending) → Same s u → Same u w → Same s w
  Same-trans s u w a b = (b.0 ∙ a.0, b.1 ∙ a.1, b.2 ∙ a.2, λ h. b.3 (a.3 h))

  Same-if : (b : Bool) (s u w : Sending) → Same s u → Same s w → Same s (if b then u else w)
  Same-if true s u w a c = a
  Same-if false s u w a c = c

  advance-Same : (s : Sending) → Same s (advance s)
  unfolding advance
  advance-Same s =
      Same-if (leb s.offer.chunks s.next) s _ _ (refl, refl, refl, λ h. h)
        (refl, refl, refl, λ h. h)

  launch-Same : (n : ℕ) (s : Sending) → Same s (launch n s)
  unfolding launch
  launch-Same zero s = (refl, refl, refl, λ h. h)
  launch-Same (suc n) s =
      Same-trans s (advance s) (launch n (advance s)) (advance-Same s) (launch-Same n (advance s))

  join-Same : (s : Sending) → Same s (join s)
  unfolding join
  join-Same s = elim (Phase-cases s.phase) [
    | inl e ↦ rw (join, e) (refl, refl, refl, λ h. h)
    | inr (inl e) ↦
        rw (join, e)
          (Same-if (eqb (length s.work) 0) s _ s (refl, refl, refl, closed)
            (refl, refl, refl, λ h. h))
    | inr (inr (inl e)) ↦ rw (join, e) (refl, refl, refl, λ h. h)
    | inr (inr (inr (inl e))) ↦ rw (join, e) (refl, refl, refl, λ h. h)
    | inr (inr (inr (inr e))) ↦ rw (join, e) (refl, refl, refl, λ h. h)
  ]
    where
      closed :
          Own s
          → (s.offer.size ≡ length s.bytes)
            × All (IsOwn s.offer s.bytes) (s.frames ++ file_done s.offer.file_id ∷ [])
      closed h = (h.0, All-append (IsOwn s.offer s.bytes) s.frames _ h.1 (refl, tt))

  offer_sent-Same : (ok : Bool) (s : Sending) → Same s (offer_sent ok s)
  unfolding offer_sent emit
  offer_sent-Same ok s = elim (Phase-cases s.phase) [
    | inl e ↦
        rw (offer_sent, e)
          (Same-if ok s _ _
            (Same-trans s (launch n u) (join (launch n u))
              (Same-trans s u (launch n u) (refl, refl, refl, λ h. h) (launch-Same n u))
              (join-Same (launch n u)))
            (refl, refl, refl, λ h. h))
    | inr (inl e) ↦ rw (offer_sent, e) (refl, refl, refl, λ h. h)
    | inr (inr (inl e)) ↦ rw (offer_sent, e) (refl, refl, refl, λ h. h)
    | inr (inr (inr (inl e))) ↦ rw (offer_sent, e) (refl, refl, refl, λ h. h)
    | inr (inr (inr (inr e))) ↦ rw (offer_sent, e) (refl, refl, refl, λ h. h)
  ]
    where
      n : ℕ
      n = min s.window s.offer.chunks

      u : Sending
      u = emit (record s { phase = transferring })

  done_sent-Same : (s : Sending) → Same s (done_sent s)
  unfolding done_sent
  done_sent-Same s = elim (Phase-cases s.phase) [
    | inl e ↦ rw (done_sent, e) (refl, refl, refl, λ h. h)
    | inr (inl e) ↦ rw (done_sent, e) (refl, refl, refl, λ h. h)
    | inr (inr (inl e)) ↦ rw (done_sent, e) (refl, refl, refl, λ h. h)
    | inr (inr (inr (inl e))) ↦ rw (done_sent, e) (refl, refl, refl, λ h. h)
    | inr (inr (inr (inr e))) ↦ rw (done_sent, e) (refl, refl, refl, λ h. h)
  ]

  chunk_sent-Same : (i : ℕ) (ok : Bool) (s : Sending) → Same s (chunk_sent i ok s)
  unfolding chunk_sent emit
  chunk_sent-Same i true s =
      Same-trans s (advance _) (join (advance _)) (advance-Same _) (join-Same (advance _))
  chunk_sent-Same i false s = (refl, refl, refl, λ h. h)

  read_data :
      (i : ℕ) (s : Sending)
      → s.offer.size ≡ length s.bytes
      → IsOwn s.offer s.bytes (
          file_chunk (record {
            file_id = s.offer.file_id;
            i = i;
            data_b64u =
                encode (read_chunk s.bytes (i * s.offer.chunk_size) (chunk_length s.offer i));
          }))
  unfolding read_chunk
  read_data i s size =
      ap (λ d. record { file_id = s.offer.file_id; i = i; data_b64u = encode d })
        (take_all s.offer.chunk_size (i * s.offer.chunk_size) s.offer.size s.bytes size)

  work-Same :
      (t : Work) (s : Sending) (ok : Bool)
      → Same s (work_reads encode t s) × Same s (work_settles encode ok t s)
  unfolding work_reads work_settles chunk_read
  work-Same (reading i) s ok = (
    (
      refl,
      refl,
      refl,
      λ h. (h.0, All-append (IsOwn s.offer s.bytes) s.frames _ h.1 (read_data i s h.0, tt)),
    ),
    (refl, refl, refl, λ h. h),
  )
  work-Same (sending i) s ok = ((refl, refl, refl, λ h. h), chunk_sent-Same i ok s)

  step-Same : (m : Move) (s : Sending) → Same s (step encode m s)
  unfolding step
  step-Same (offer_settles ok) s = offer_sent-Same ok s
  step-Same (reads n) s = elim (Option-cases (pick n s.work)) [
    | inl out ↦ rw (step, out) (refl, refl, refl, λ h. h)
    | inr ((t, ts), at) ↦ rw (step, at) (work-Same t (record s { work = ts }) true).0
  ]
  step-Same (settles n ok) s = elim (Option-cases (pick n s.work)) [
    | inl out ↦ rw (step, out) (refl, refl, refl, λ h. h)
    | inr ((t, ts), at) ↦ rw (step, at) (work-Same t (record s { work = ts }) ok).1
  ]
  step-Same done_settles s = done_sent-Same s

  pub run-Same : (moves : List Move) (s : Sending) → Same s (run encode moves s)
  unfolding run
  run-Same [] s = (refl, refl, refl, λ h. h)
  run-Same (m ∷ moves) s =
      Same-trans s (step encode m s) (run encode moves (step encode m s)) (step-Same m s)
        (run-Same moves (step encode m s))
