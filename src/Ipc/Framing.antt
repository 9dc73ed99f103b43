-- ===== src/Ipc/Framing.antt =====
-- A message that is written and read, however the socket cuts it into deliveries.
use myqueue.Prelude.{
  ℕ, zero, suc, ◌-◌, ◌%◌, ◌^◌, ◌≤◌, ◌<◌, ◌≡◌, refl, sym, ap, ◌∙◌, true, false, Option, none, some,
  List, [], ◌∷◌, ◌++◌, length, take, drop, length-append, leb, ltb, ◌==◌, ◌||◌, arith, Bool-cases,
  inl, inr,
}
use mathlib.Core.List.{append_assoc}
use myqueue.Prelude.Text.{Bytes}
use myqueue.Ipc.{
  Acceptance, write_interrupted, write_failure, wrote, write_exact, Delivery, interrupted, failure,
  arrived, put_back, read_exact, header, length_of, max_message_size, frame, read_body,
}

-- The bytes of deliveries, none of which is a failure.
abbrev pub sent : List Delivery → Bytes
sent [] = []
sent (interrupted ∷ ds) = sent ds
sent (failure ∷ ds) = sent ds
sent (arrived b bs ∷ ds) = (b ∷ bs) ++ sent ds

abbrev pub NoFailure : List Delivery → Type 0
NoFailure [] = Unit {0}
NoFailure (interrupted ∷ ds) = NoFailure ds
NoFailure (failure ∷ ds) = ⊥
NoFailure (arrived b bs ∷ ds) = NoFailure ds

-- Reading the front of the bytes: they come, and the rest is left.
Reads : Option (Bytes × List Delivery) → Bytes → Bytes → Type 0
Reads r front rest =
    (ds : List Delivery) × ((r ≡ some (front, ds)) × ((sent ds ≡ rest) × NoFailure ds))

sent-put_back : (bs : Bytes) (ds : List Delivery) → sent (put_back bs ds) ≡ bs ++ sent ds
sent-put_back [] ds = refl
sent-put_back (b ∷ bs) ds = refl

NoFailure-put_back : (bs : Bytes) (ds : List Delivery) → NoFailure ds → NoFailure (put_back bs ds)
NoFailure-put_back [] ds h = h
NoFailure-put_back (b ∷ bs) ds h = h

-- Two ways to cut the same bytes in two.
cut_longer :
    (a b c d : Bytes)
    → a ++ b ≡ c ++ d
    → length a ≤ length c
    → (m : Bytes) × ((c ≡ a ++ m) × (b ≡ m ++ d))
cut_longer [] b c d e h = (c, (refl, e))
cut_longer (x ∷ a) b [] d e h = absurd (omega arith)
cut_longer (x ∷ a) b (y ∷ c) d e h =
    let (m, (f, g)) = cut_longer a b c d (tails e) (omega arith) in (m, (ground arith, g))
  where
    tails : x ∷ (a ++ b) ≡ y ∷ (c ++ d) → a ++ b ≡ c ++ d
    tails p = ground arith

take-append : (a b : Bytes) → take (length a) (a ++ b) ≡ a
take-append [] [] = refl
take-append [] (x ∷ b) = refl
take-append (x ∷ a) b = ap (◌∷◌ x) (take-append a b)

take-drop : (n : ℕ) (a : Bytes) → take n a ++ drop n a ≡ a
take-drop zero a = refl
take-drop (suc n) [] = refl
take-drop (suc n) (x ∷ a) = ap (◌∷◌ x) (take-drop n a)

drop-append : (a b : Bytes) → drop (length a) (a ++ b) ≡ b
drop-append [] [] = refl
drop-append [] (x ∷ b) = refl
drop-append (x ∷ a) b = drop-append a b

read_exact-Reads :
    (ds : List Delivery) (front rest : Bytes)
    → NoFailure ds
    → sent ds ≡ front ++ rest
    → Reads (read_exact ds (length front)) front rest
unfolding read_exact Reads
read_exact-Reads ds [] rest h e = (ds, (refl, (e, h)))
read_exact-Reads [] (x ∷ front) rest h e = absurd (ground arith)
read_exact-Reads (interrupted ∷ ds) (x ∷ front) rest h e = read_exact-Reads ds (x ∷ front) rest h e
read_exact-Reads (failure ∷ ds) (x ∷ front) rest h e = elim h [ ]
read_exact-Reads (arrived b bs ∷ ds) (x ∷ front) rest h e =
    elim (Bool-cases (leb (length (b ∷ bs)) (length (x ∷ front)))) [
      | inl q ↦
          let (m, (f, g)) = cut_longer (b ∷ bs) (sent ds) (x ∷ front) rest e (ground arith) in
          let (ds', (r, left)) = read_exact-Reads ds m rest h g in
          let n : length (x ∷ front) - length (b ∷ bs) ≡ length m =
            omega (arith, ap length f ∙ length-append (b ∷ bs) m) in
          (ds', (rw (q, n, r) (ap (λ w. some (w, ds')) (sym f)), left))
      | inr q ↦
          let (m, (f, g)) = cut_longer (x ∷ front) rest (b ∷ bs) (sent ds) (sym e) (ground arith) in
          let t : take (length (x ∷ front)) (b ∷ bs) ≡ x ∷ front =
            ap (take (length (x ∷ front))) f ∙ take-append (x ∷ front) m in
          let d : drop (length (x ∷ front)) (b ∷ bs) ≡ m =
            ap (drop (length (x ∷ front))) f ∙ drop-append (x ∷ front) m in
          (
            put_back m ds,
            (rw (q, t, d) refl, (sent-put_back m ds ∙ sym g, NoFailure-put_back m ds h)),
          )
    ]

length_of-header : (n : ℕ) → n < 2 ^ 32 → length_of (header n) ≡ n
unfolding length_of header
length_of-header n h = omega arith

-- A written message that is not empty and no longer than the limit is read back whole, with what follows
-- it left to read, however the socket cuts the bytes into deliveries and interrupts the reads.
pub read_body-frame :
    (ds : List Delivery) (message rest : Bytes)
    → NoFailure ds
    → sent ds ≡ frame message ++ rest
    → 0 < length message
    → length message ≤ max_message_size
    → (ds' : List Delivery) × ((read_body ds ≡ some (message, ds'))
        × ((sent ds' ≡ rest) × NoFailure ds'))
unfolding read_body frame header Reads
read_body-frame ds message rest h e some_bytes fits =
    let n = length message % 2 ^ 32 in
    let same : n ≡ length message = omega arith in
    let (ds1, (r1, (s1, h1))) =
      read_exact-Reads ds (header n) (message ++ rest) h
        (e ∙ append_assoc (header n) message rest) in
    let (ds2, (r2, left)) = read_exact-Reads ds1 message rest h1 s1 in
    let l : length_of (header n) ≡ length message = length_of-header n (omega arith) ∙ same in
    let ok : (length message == 0 || ltb max_message_size (length message)) ≡ false =
      ground arith in
    (ds2, (rw (r1, read_body) (rw (l, ok) r2), left))

-- A header with length 0 or beyond the limit ends the reading, whatever follows it.
pub read_body_refused :
    (ds : List Delivery) (n : ℕ) (rest : Bytes)
    → NoFailure ds
    → sent ds ≡ header n ++ rest
    → n < 2 ^ 32
    → (n == 0 || ltb max_message_size n) ≡ true
    → read_body ds ≡ none
unfolding read_body header Reads
read_body_refused ds n rest h e room bad =
    let (ds1, (r1, left)) = read_exact-Reads ds (header n) rest h e in
    let l : length_of (header n) ≡ n = length_of-header n room in
    rw (r1, read_body) (rw (l, bad) refl)

-- What writeExact sends is a front part of the bytes, and all of them if it succeeds.
pub write_exact_lem :
    (ws : List Acceptance) (bytes : Bytes)
    → let (done, out) = write_exact ws bytes in
      ((rest : Bytes) × (bytes ≡ out ++ rest)) × (done ≡ true → out ≡ bytes)
unfolding write_exact
write_exact_lem ws [] = (([], refl), λ e. refl)
write_exact_lem [] (b ∷ bs) = ((b ∷ bs, refl), λ e. cc)
write_exact_lem (write_interrupted ∷ ws) (b ∷ bs) = write_exact_lem ws (b ∷ bs)
write_exact_lem (write_failure ∷ ws) (b ∷ bs) = ((b ∷ bs, refl), λ e. cc)
write_exact_lem (wrote n ∷ ws) (b ∷ bs) =
    let ((rest, front), all) = write_exact_lem ws (drop n (b ∷ bs)) in
    let taken = take n (b ∷ bs) in
    let joined = take-drop n (b ∷ bs) in
    (
      (
        rest,
        sym joined
            ∙ ap (◌++◌ taken) front
            ∙ sym (append_assoc taken (write_exact ws (drop n (b ∷ bs))).1 rest),
      ),
      λ e. ap (◌++◌ taken) (all e) ∙ joined,
    )
