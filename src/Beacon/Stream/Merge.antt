-- ===== src/Beacon/Stream/Merge.antt =====
-- What the merged stream of crates/beacon/src/events/stream.rs makes of the two.
use Prim.Native.String.{String}
use mathlib.Core.List.{append-nil}
use rs_mev_relay.Prelude.{
  ℕ, zero, suc, ◌+◌, ◌≤◌, Option, none, some, List, [], ◌∷◌, ◌++◌, length, replicate, Result, ok,
  err, Poll, ready, pending, next_poll, ◌≡◌, refl, ap, sym, ◌∙◌, arith, ◌⊎◌, inl, inr, ◌↔◌,
}
use rs_mev_relay.Primitives.Chain.{PayloadAttributes}
use rs_mev_relay.Primitives.Events.{EventStream, BeaconEvent, payload_attribute, head}
use rs_mev_relay.Beacon.Stream.{BeaconEventsStream, payload_answer, head_answer, poll_next, polls}

-- The events that a stream still has to give.
unfoldable pub oks {ℓ} : {A : Type ℓ} → List (Poll (Option (Result String A))) → List A
oks [] = []
oks (ready (some (ok event)) ∷ answers) = event ∷ oks answers
oks (ready (some (err e)) ∷ answers) = oks answers
oks (ready none ∷ answers) = oks answers
oks (pending ∷ answers) = oks answers

-- The events among the answers to polls.
unfoldable pub events : List (Poll (Option BeaconEvent)) → List BeaconEvent
events [] = []
events (ready (some event) ∷ answers) = event ∷ events answers
events (ready none ∷ answers) = events answers
events (pending ∷ answers) = events answers

-- The payload attributes among events, and the heads.
unfoldable pub payloads : List BeaconEvent → List PayloadAttributes
payloads [] = []
payloads (payload_attribute attr ∷ rest) = attr ∷ payloads rest
payloads (head slot ∷ rest) = payloads rest

unfoldable pub heads : List BeaconEvent → List ℕ
heads [] = []
heads (payload_attribute attr ∷ rest) = heads rest
heads (head slot ∷ rest) = slot ∷ heads rest

-- The second `match` drops no head, and answers with no payload attributes.
head_answer-oks :
    (hs : EventStream ℕ) (answers : List (Poll (Option BeaconEvent))) (later : List ℕ)
    → heads (events answers) ++ later ≡ oks (next_poll hs).1
    → (payloads (events (head_answer (next_poll hs).0 ∷ answers)) ≡ payloads (events answers))
      × (heads (events (head_answer (next_poll hs).0 ∷ answers)) ++ later ≡ oks hs)
unfolding events payloads heads oks head_answer
head_answer-oks [] answers later h = (refl, h)
head_answer-oks (ready (some (ok slot)) ∷ hs) answers later h = (refl, ap (λ xs. slot ∷ xs) h)
head_answer-oks (ready (some (err e)) ∷ hs) answers later h = (refl, h)
head_answer-oks (ready none ∷ hs) answers later h = (refl, h)
head_answer-oks (pending ∷ hs) answers later h = (refl, h)

-- A poll drops no event of either stream: if later answers and what is left then make up the rest,
-- then with its own answer they make up all.
poll_next-oks :
    (ps : EventStream PayloadAttributes) (hs : EventStream ℕ)
    (answers : List (Poll (Option BeaconEvent))) (more : List PayloadAttributes) (later : List ℕ)
    → let (answer, t) = poll_next (record { payload_attributes = ps; new_head = hs }) in
      payloads (events answers) ++ more ≡ oks t.payload_attributes
      → heads (events answers) ++ later ≡ oks t.new_head
      → (payloads (events (answer ∷ answers)) ++ more ≡ oks ps)
        × (heads (events (answer ∷ answers)) ++ later ≡ oks hs)
unfolding events payloads heads oks poll_next payload_answer
poll_next-oks (ready (some (ok event)) ∷ ps) hs answers more later p h =
    (ap (λ xs. event ∷ xs) p, h)
poll_next-oks (ready (some (err e)) ∷ ps) hs answers more later p h = (p, h)
poll_next-oks (ready none ∷ ps) hs answers more later p h =
    let (same, all) = head_answer-oks hs answers later h in (rw same p, all)
poll_next-oks (pending ∷ ps) hs answers more later p h =
    let (same, all) = head_answer-oks hs answers later h in (rw same p, all)
poll_next-oks [] hs answers more later p h =
    let (same, all) = head_answer-oks hs answers later h in (rw same p, all)

-- However often the merged stream is polled, no event is lost, made up, repeated or moved before
-- another of its kind: the payload attributes among the answers are those that their stream gave,
-- and what it has still to give follows; and so for the heads.
pub polls-oks :
    (n : ℕ) (s : BeaconEventsStream)
    → (payloads (events (polls n s).0) ++ oks (polls n s).1.payload_attributes
        ≡ oks s.payload_attributes)
      × (heads (events (polls n s).0) ++ oks (polls n s).1.new_head ≡ oks s.new_head)
unfolding polls oks events payloads heads
polls-oks zero s = (refl, refl)
polls-oks (suc n) s =
    let t = (poll_next s).1 in
    let (p, h) = polls-oks n t in
    poll_next-oks s.payload_attributes s.new_head (polls n t).0
      (oks (polls n t).1.payload_attributes) (oks (polls n t).1.new_head) p h

-- A poll takes an answer of one of the two streams at least, if there is one.
poll_next-length :
    (ps : EventStream PayloadAttributes) (hs : EventStream ℕ) (n : ℕ)
    → length ps + length hs ≤ suc n
    → let t = (poll_next (record { payload_attributes = ps; new_head = hs })).1 in
      length t.payload_attributes + length t.new_head ≤ n
unfolding poll_next payload_answer
poll_next-length [] [] n le = ground arith
poll_next-length [] (h ∷ hs) n le = ground arith
poll_next-length (p ∷ ps) [] n le = ground arith
poll_next-length (p ∷ ps) (h ∷ hs) n le = ground arith

polls-length :
    (n : ℕ) (s : BeaconEventsStream)
    → length s.payload_attributes + length s.new_head ≤ n
    → length (polls n s).1.payload_attributes + length (polls n s).1.new_head ≤ 0
unfolding polls
polls-length zero s le = le
polls-length (suc n) s le =
    polls-length n (poll_next s).1 (poll_next-length s.payload_attributes s.new_head n le)

oks-empty {ℓ} :
    {A : Type ℓ} (answers : List (Poll (Option (Result String A)))) (seen : List A)
    → length answers ≤ 0
    → seen ++ oks answers ≡ seen
unfolding oks
oks-empty [] seen le = append-nil seen
oks-empty (a ∷ answers) seen le = absurd (omega arith)

-- Enough polls give every event: after as many as the two streams have answers, the payload
-- attributes among the answers are all those of their stream, in order, and the heads all those of
-- theirs.
pub polls-all :
    (n : ℕ) (s : BeaconEventsStream)
    → length s.payload_attributes + length s.new_head ≤ n
    → (payloads (events (polls n s).0) ≡ oks s.payload_attributes)
      × (heads (events (polls n s).0) ≡ oks s.new_head)
polls-all n s le =
    let (p, h) = polls-oks n s in
    let none_left = polls-length n s le in
    let t = (polls n s).1 in
    (
      sym (oks-empty t.payload_attributes (payloads (events (polls n s).0)) (omega arith)) ∙ p,
      sym (oks-empty t.new_head (heads (events (polls n s).0)) (omega arith)) ∙ h,
    )

-- What a stream answers when it fails, and when it has nothing to give now.
abbrev pub Fails {ℓ} : {A : Type ℓ} → Poll (Option (Result String A)) → Type ℓ
Fails answer = (e : String) × (answer ≡ ready (some (err e)))

abbrev pub GivesNothing {ℓ} : {A : Type ℓ} → Poll (Option (Result String A)) → Type ℓ
GivesNothing answer = (answer ≡ ready none) ⊎ (answer ≡ pending)

end_of_cause :
    (p : Poll (Option (Result String PayloadAttributes))) (h : Poll (Option (Result String ℕ)))
    → Fails p ⊎ GivesNothing p × (Fails h ⊎ (h ≡ ready none))
    → (elim (payload_answer p) [ some returned ↦ returned | none ↦ head_answer h ]) ≡ ready none
unfolding payload_answer head_answer
end_of_cause p h (inl (e, same)) = rw same refl
end_of_cause p h (inr (inl same, inl (e, new))) = rw same (rw new refl)
end_of_cause p h (inr (inl same, inr new)) = rw same (rw new refl)
end_of_cause p h (inr (inr same, inl (e, new))) = rw same (rw new refl)
end_of_cause p h (inr (inr same, inr new)) = rw same (rw new refl)

head_cause :
    (h : Poll (Option (Result String ℕ))) → head_answer h ≡ ready none → Fails h ⊎ (h ≡ ready none)
unfolding head_answer
head_cause (ready (some (ok slot))) e = cc
head_cause (ready (some (err why))) e = inl (why, refl)
head_cause (ready none) e = inr refl
head_cause pending e = cc

cause_of_end :
    (p : Poll (Option (Result String PayloadAttributes))) (h : Poll (Option (Result String ℕ)))
    → (elim (payload_answer p) [ some returned ↦ returned | none ↦ head_answer h ]) ≡ ready none
    → Fails p ⊎ GivesNothing p × (Fails h ⊎ (h ≡ ready none))
unfolding payload_answer
cause_of_end (ready (some (ok event))) h e = cc
cause_of_end (ready (some (err why))) h e = inl (why, refl)
cause_of_end (ready none) h e = inr (inl refl, head_cause h e)
cause_of_end pending h e = inr (inr refl, head_cause h e)

answer_of :
    (s : BeaconEventsStream)
    → (poll_next s).0 ≡ elim (payload_answer (next_poll s.payload_attributes).0) [
      | some returned ↦ returned
      | none ↦ head_answer (next_poll s.new_head).0
    ]
unfolding poll_next
answer_of s = ground arith

-- The merged stream ends exactly when one of the two fails, or when the heads end; at the end of
-- the payload attributes alone it does not.
pub poll_next-end_iff :
    (s : BeaconEventsStream)
    → let payload = (next_poll s.payload_attributes).0 in
      let new = (next_poll s.new_head).0 in
      ((poll_next s).0 ≡ ready none)
      ↔ (Fails payload ⊎ GivesNothing payload × (Fails new ⊎ (new ≡ ready none)))
poll_next-end_iff s =
    let p = (next_poll s.payload_attributes).0 in
    let h = (next_poll s.new_head).0 in
    (λ e. cause_of_end p h (sym (answer_of s) ∙ e), λ cause. answer_of s ∙ end_of_cause p h cause)

-- The end of the payload attributes goes unseen: a stream of them that has ended, however often it
-- says so, gives the same answers as one that only waits.
pub polls-ended :
    (n m : ℕ) (hs : EventStream ℕ)
    → (polls n (record { payload_attributes = replicate m (ready none); new_head = hs })).0
      ≡ (polls n (record { payload_attributes = []; new_head = hs })).0
unfolding polls poll_next payload_answer
polls-ended zero m hs = refl
polls-ended (suc n) zero hs = refl
polls-ended (suc n) (suc m) hs =
    ap (λ rest. head_answer (next_poll hs).0 ∷ rest) (polls-ended n m (next_poll hs).1)
